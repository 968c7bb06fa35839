-- ===== src/Base/View.antt =====
-- The searches of `std::string_view`. A position is an optional number: `none` is `npos`.
use Prim.Native.Nat.{ℕ, suc, ◌+◌, ◌<◌}
use mathlib.Core.Path.{◌≡◌, refl, ap, ◌∙◌}
use mathlib.Core.Bool.{Bool, true, false, not, ◌&&◌, ◌||◌}
use mathlib.Core.Logic.{inl, inr}
use mathlib.Core.Option
use mathlib.Core.Option.{Option, none, some}
use mathlib.Core.List.{[], ◌∷◌, ◌++◌}
use native.Mathlib.Omega.{arith}
use cndl.Base.Tests.{◌==◌, if◌then◌else◌, Bool-cases}
use cndl.Base.Lists.{All, length, take, drop}
use cndl.Base.Text.{Bytes}

-- The first element that passes the test.
abbrev pub index_where : (ℕ → Bool) → Bytes → Option ℕ
index_where p [] = none
index_where p (x ∷ xs) = if p x then some 0 else Option.map suc (index_where p xs)

-- The last element that passes the test.
abbrev pub last_index_where : (ℕ → Bool) → Bytes → Option ℕ
last_index_where p [] = none
last_index_where p (x ∷ xs) = elim (last_index_where p xs) [
  | some i ↦ some (suc i)
  | none ↦ if p x then some 0 else none
]

-- `find(c, start)`, `find_first_of(set, start)` and `find_first_not_of(set, start)` by their tests.
unfoldable pub find_where : (ℕ → Bool) → ℕ → Bytes → Option ℕ
find_where p start v = Option.map (λ i. start + i) (index_where p (drop start v))

abbrev pub one_of : Bytes → ℕ → Bool
one_of [] c = false
one_of (x ∷ set) c = c == x || one_of set c

abbrev pub none_of : Bytes → ℕ → Bool
none_of set c = not (one_of set c)

abbrev pub is_char : ℕ → ℕ → Bool
is_char c x = x == c

abbrev pub starts_with : Bytes → Bytes → Bool
starts_with [] v = true
starts_with (p ∷ ps) [] = false
starts_with (p ∷ ps) (x ∷ v) = x == p && starts_with ps v

-- The first place where the text stands.
abbrev pub index_of : Bytes → Bytes → Option ℕ
index_of text [] = if starts_with text [] then some 0 else none
index_of text (x ∷ v) =
    if starts_with text (x ∷ v) then some 0 else Option.map suc (index_of text v)

-- `find(text, start)`
unfoldable pub find_text : Bytes → ℕ → Bytes → Option ℕ
find_text text start v = Option.map (λ i. start + i) (index_of text (drop start v))

map-suc-none : (o : Option ℕ) → Option.map suc o ≡ none → o ≡ none
map-suc-none none h = refl
map-suc-none (some i) h = cc

map-suc-some :
    (o : Option ℕ) {i : ℕ} → Option.map suc o ≡ some i → (j : ℕ) × (o ≡ some j) × (i ≡ suc j)
map-suc-some none h = cc
map-suc-some (some j) h = (j, refl, ground arith)

-- Where no element passes, all fail; at the first that passes the list is cut in three.
pub index_where-none :
    (p : ℕ → Bool) (xs : Bytes) → index_where p xs ≡ none → All (λ x. p x ≡ false) xs
index_where-none p [] h = tt
index_where-none p (x ∷ xs) h = elim (Bool-cases (p x)) [
  | inl hit ↦ absurd (ground arith)
  | inr miss ↦ (miss, index_where-none p xs (map-suc-none _ (rw miss at h)))
]

pub record Cut (p : ℕ → Bool) (xs : Bytes) (i : ℕ) : Type 0 where
  pub mark : ℕ
  pub behind : Bytes
  pub splits : xs ≡ take i xs ++ (mark ∷ behind)
  pub before_fails : All (λ x. p x ≡ false) (take i xs)
  pub passes : p mark ≡ true
  pub inside : i < length xs
  pub rest : drop (suc i) xs ≡ behind
  pub from_mark : drop i xs ≡ mark ∷ behind

pub index_where-Cut : (p : ℕ → Bool) (xs : Bytes) {i : ℕ} → index_where p xs ≡ some i → Cut p xs i
index_where-Cut p [] h = cc
index_where-Cut p (x ∷ xs) {i} h = elim (Bool-cases (p x)) [
  | inl hit ↦
      let e : i ≡ 0 = ground arith in
      rw e (record {
        mark = x;
        behind = xs;
        splits = refl;
        before_fails = tt;
        passes = hit;
        inside = omega arith;
        rest = refl;
        from_mark = refl;
      })
  | inr miss ↦
      let (j, found, e) = map-suc-some _ (rw miss at h) in
      let c = index_where-Cut p xs found in
      rw e (record {
        mark = c.mark;
        behind = c.behind;
        splits = ap (◌∷◌ x) c.splits;
        before_fails = (miss, c.before_fails);
        passes = c.passes;
        inside = omega (arith, c.inside);
        rest = c.rest;
        from_mark = c.from_mark;
      })
]

-- Behind a part where none passes the search goes on.
pub index_where-append :
    (p : ℕ → Bool) (pre xs : Bytes) {i : ℕ}
    → All (λ x. p x ≡ false) pre
    → index_where p xs ≡ some i
    → index_where p (pre ++ xs) ≡ some (length pre + i)
index_where-append p [] xs h e = e ∙ ap some (omega arith)
index_where-append p (x ∷ pre) xs {i} h e =
    rw (h.0, index_where-append p pre xs h.1 e) (ap some (omega arith))

pub index_where-eq-none :
    (p : ℕ → Bool) (xs : Bytes) → All (λ x. p x ≡ false) xs → index_where p xs ≡ none
index_where-eq-none p [] h = refl
index_where-eq-none p (x ∷ xs) h = rw (h.0, index_where-eq-none p xs h.1)

pub last_index_where-append :
    (p : ℕ → Bool) (pre xs : Bytes) {i : ℕ}
    → last_index_where p xs ≡ some i
    → last_index_where p (pre ++ xs) ≡ some (length pre + i)
last_index_where-append p [] xs e = e ∙ ap some (omega arith)
last_index_where-append p (x ∷ pre) xs e =
    rw (last_index_where-append p pre xs e) (ap some (omega arith))
