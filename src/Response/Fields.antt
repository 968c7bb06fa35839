-- ===== src/Response/Fields.antt =====
-- The header fields of a response: a `std::multimap` from names to values, kept in the order of the
-- names, where a new value stands behind those of the same name.
use cndl.Base.{
  ◌≡◌, refl, List, [], ◌∷◌, Bytes, str_eq, str_eq_iff, true, false, Bool, ◌||◌, ◌&&◌, ltb, ◌==◌,
  if◌then◌else◌, arith, Bool-cases, inl, inr, All,
}

abbrev pub Fields : Type 0
Fields = List (Bytes × Bytes)

-- `operator<` of strings.
abbrev pub str_lt : Bytes → Bytes → Bool
str_lt [] [] = false
str_lt [] (y ∷ b) = true
str_lt (x ∷ a) [] = false
str_lt (x ∷ a) (y ∷ b) = ltb x y || (x == y && str_lt a b)

-- `fields.emplace(name, value)`
unfoldable pub emplace : Bytes → Bytes → Fields → Fields
emplace name value [] = (name, value) ∷ []
emplace name value ((key, v) ∷ fields) =
    if str_lt name key
    then (name, value) ∷ ((key, v) ∷ fields)
    else (key, v) ∷ emplace name value fields

-- `fields.erase(name)`
unfoldable pub erase : Bytes → Fields → Fields
erase name [] = []
erase name ((key, v) ∷ fields) =
    if str_eq name key then erase name fields else (key, v) ∷ erase name fields

-- `fields.find(name) != fields.end()`
unfoldable pub has : Bytes → Fields → Bool
has name [] = false
has name ((key, v) ∷ fields) = str_eq name key || has name fields

-- The values of a name, in their order.
unfoldable pub values : Bytes → Fields → List Bytes
values name [] = []
values name ((key, v) ∷ fields) =
    if str_eq name key then v ∷ values name fields else values name fields

-- The names never fall.
abbrev pub IsOrdered : Fields → Type 0
IsOrdered [] = Unit
IsOrdered ((key, v) ∷ fields) = All (λ f. str_lt f.0 key ≡ false) fields × IsOrdered fields

str_lt_irrefl : (a : Bytes) → str_lt a a ≡ false
str_lt_irrefl [] = refl
str_lt_irrefl (x ∷ a) = ground (arith, str_lt_irrefl a)

pub str_lt_trans : (a b c : Bytes) → str_lt a b ≡ true → str_lt c b ≡ false → str_lt a c ≡ true
str_lt_trans [] (y ∷ b) [] h k = cc
str_lt_trans [] (y ∷ b) (z ∷ c) h k = refl
str_lt_trans (x ∷ a) (y ∷ b) [] h k = cc
str_lt_trans (x ∷ a) (y ∷ b) (z ∷ c) h k = ground (arith, str_lt_trans a b c)
str_lt_trans [] [] c h k = cc
str_lt_trans (x ∷ a) [] c h k = cc

pub str_lt-≢ : (a b : Bytes) → str_lt a b ≡ true → str_eq a b ≡ false
str_lt-≢ a b h = elim (Bool-cases (str_eq a b)) [
  | inl same ↦ absurd (let e = (str_eq_iff a b).0 same in ground (arith, str_lt_irrefl b))
  | inr other ↦ other
]

str_lt-asym : (a b : Bytes) → str_lt a b ≡ true → str_lt b a ≡ false
str_lt-asym [] [] h = cc
str_lt-asym [] (y ∷ b) h = refl
str_lt-asym (x ∷ a) [] h = cc
str_lt-asym (x ∷ a) (y ∷ b) h = ground (arith, str_lt-asym a b)

str_lt-below :
    (name key f : Bytes) → str_lt name key ≡ true → str_lt f key ≡ false → str_lt f name ≡ false
str_lt-below name key f h k = elim (Bool-cases (str_lt f name)) [
  | inl below ↦
      absurd (let e = str_lt_trans f name key below (str_lt-asym name key h) in ground arith)
  | inr above ↦ above
]

All-below :
    (name key : Bytes) (fields : Fields)
    → str_lt name key ≡ true
    → All (λ f. str_lt f.0 key ≡ false) fields
    → All (λ f. str_lt f.0 name ≡ false) fields
All-below name key [] h above = tt
All-below name key ((k, v) ∷ fields) h above =
    (str_lt-below name key k h above.0, All-below name key fields h above.1)

All-emplace :
    (P : Bytes × Bytes → Type 0) (name value : Bytes) (fields : Fields)
    → P (name, value)
    → All P fields
    → All P (emplace name value fields)
unfolding emplace
All-emplace P name value [] h hs = (h, tt)
All-emplace P name value ((k, v) ∷ fields) h hs = elim (Bool-cases (str_lt name k)) [
  | inl first ↦ rw first (h, hs)
  | inr later ↦ rw later (hs.0, All-emplace P name value fields h hs.1)
]

pub emplace-IsOrdered :
    (name value : Bytes) (fields : Fields)
    → IsOrdered fields
    → IsOrdered (emplace name value fields)
unfolding emplace
emplace-IsOrdered name value [] h = (tt, tt)
emplace-IsOrdered name value ((k, v) ∷ fields) (above, h) = elim (Bool-cases (str_lt name k)) [
  | inl first ↦
      rw first ((str_lt-asym name k first, All-below name k fields first above), (above, h))
  | inr later ↦ rw later (
    All-emplace (λ f. str_lt f.0 k ≡ false) name value fields later above,
    emplace-IsOrdered name value fields h,
  )
]

All-erase :
    (P : Bytes × Bytes → Type 0) (name : Bytes) (fields : Fields)
    → All P fields
    → All P (erase name fields)
unfolding erase
All-erase P name [] h = tt
All-erase P name ((k, v) ∷ fields) h = elim (Bool-cases (str_eq name k)) [
  | inl same ↦ rw same (All-erase P name fields h.1)
  | inr other ↦ rw other (h.0, All-erase P name fields h.1)
]

pub erase-IsOrdered :
    (name : Bytes) (fields : Fields) → IsOrdered fields → IsOrdered (erase name fields)
unfolding erase
erase-IsOrdered name [] h = tt
erase-IsOrdered name ((k, v) ∷ fields) (above, h) = elim (Bool-cases (str_eq name k)) [
  | inl same ↦ rw same (erase-IsOrdered name fields h)
  | inr other ↦
      rw other
        (All-erase (λ f. str_lt f.0 k ≡ false) name fields above, erase-IsOrdered name fields h)
]
