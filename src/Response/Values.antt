-- ===== src/Response/Values.antt =====
-- What the values of a field are after a field is put in or taken out.
use cndl.Base.{
  if◌then◌else◌, ◌≡◌, refl, sym, ap, ◌∙◌, List, [], ◌∷◌, ◌++◌, Bytes, codes, str_eq, str_eq_iff,
  true, false, Bool-cases, inl, inr, All,
}
use cndl.Response.Fields.{
  Fields, str_lt, str_lt_trans, str_lt-≢, emplace-IsOrdered, erase-IsOrdered, emplace, erase,
  values, IsOrdered,
}
use cndl.Response.Types.{
  CookieAttributes, Response, cookie, set_cookie, content_type_lookup,
  set_content_type_from_extension,
}

str_eq_refl : (name : Bytes) → str_eq name name ≡ true
str_eq_refl name = (str_eq_iff name name).1 refl

values-above :
    (name key : Bytes) (fields : Fields)
    → str_lt name key ≡ true
    → All (λ f. str_lt f.0 key ≡ false) fields
    → values name fields ≡ []
unfolding values
values-above name key [] h above = refl
values-above name key ((k, v) ∷ fields) h above =
    rw (str_lt-≢ name k (str_lt_trans name key k h above.0))
      (values-above name key fields h above.1)

-- A field that is put among ordered fields stands behind the values that its name has already.
pub values-emplace :
    (name value : Bytes) (fields : Fields)
    → IsOrdered fields
    → values name (emplace name value fields) ≡ values name fields ++ (value ∷ [])
unfolding values emplace
values-emplace name value [] h = rw (str_eq_refl name)
values-emplace name value ((k, v) ∷ fields) (above, h) = elim (Bool-cases (str_lt name k)) [
  | inl first ↦
      rw (first, str_eq_refl name, str_lt-≢ name k first, values-above name k fields first above)
  | inr later ↦ elim (Bool-cases (str_eq name k)) [
    | inl same ↦ rw (later, same, values-emplace name value fields h)
    | inr other ↦ rw (later, other, values-emplace name value fields h)
  ]
]

values-emplace_other :
    (name key value : Bytes) (fields : Fields)
    → str_eq name key ≡ false
    → values name (emplace key value fields) ≡ values name fields
unfolding values emplace
values-emplace_other name key value [] h = rw h
values-emplace_other name key value ((k, v) ∷ fields) h = elim (Bool-cases (str_lt key k)) [
  | inl first ↦ rw (first, h)
  | inr later ↦ rw (later, values-emplace_other name key value fields h)
]

values-erase : (name : Bytes) (fields : Fields) → values name (erase name fields) ≡ []
unfolding values erase
values-erase name [] = refl
values-erase name ((k, v) ∷ fields) = elim (Bool-cases (str_eq name k)) [
  | inl same ↦ rw same (values-erase name fields)
  | inr other ↦ rw (other, other) (values-erase name fields)
]

values-erase_other :
    (name key : Bytes) (fields : Fields)
    → str_eq name key ≡ false
    → values name (erase key fields) ≡ values name fields
unfolding values erase
values-erase_other name key [] h = refl
values-erase_other name key ((k, v) ∷ fields) h = elim (Bool-cases (str_eq key k)) [
  | inl same ↦ rw (same, sym ((str_eq_iff key k).0 same), h) (values-erase_other name key fields h)
  | inr other ↦ rw (other, values-erase_other name key fields h)
]

-- The field `name` of `after` has the values `given`, the other fields are those of `before`, and
-- the names are in order.
abbrev pub Sets : Bytes → List Bytes → Response → Response → Type 0
Sets name given before after =
    IsOrdered after.fields
    × ((key : Bytes)
        → values key after.fields ≡ (if str_eq key name then given else values key before.fields))

Sets-fields :
    (name : Bytes) (given : List Bytes) (before after : Fields)
    → values name after ≡ given
    → ((key : Bytes) → str_eq key name ≡ false → values key after ≡ values key before)
    → (key : Bytes) → values key after ≡ (if str_eq key name then given else values key before)
Sets-fields name given before after same others key = elim (Bool-cases (str_eq key name)) [
  | inl hit ↦ rw hit (ap (λ k. values k after) ((str_eq_iff key name).0 hit) ∙ same)
  | inr miss ↦ rw miss (others key miss)
]

-- Where the fields of a response are in order, `set_cookie` keeps them so, puts the new cookie
-- behind those set before, and changes no other field.
pub set_cookie-Sets :
    {Tm : Type 0} (mkdatestr : Tm → Bytes) (name value : Bytes) (attributes : CookieAttributes Tm)
    (r : Response)
    → IsOrdered r.fields
    → Sets
        (codes "Set-Cookie")
        (values (codes "Set-Cookie") r.fields ++ (cookie mkdatestr name value attributes ∷ []))
        r
        (set_cookie mkdatestr name value attributes r)
unfolding set_cookie
set_cookie-Sets mkdatestr name value attributes r h =
    let text = cookie mkdatestr name value attributes in
    (
      emplace-IsOrdered (codes "Set-Cookie") text r.fields h,
      Sets-fields (codes "Set-Cookie") _ r.fields _
          (values-emplace (codes "Set-Cookie") text r.fields h)
          (λ other k. values-emplace_other other (codes "Set-Cookie") text r.fields k),
    )

-- Where the fields of a response are in order, `set_content_type_from_extension` keeps them so,
-- leaves one content type, that of the extension, and changes no other field.
pub set_content_type_from_extension-Sets :
    (extension : Bytes) (r : Response)
    → IsOrdered r.fields
    → Sets
        (codes "Content-Type")
        (content_type_lookup extension ∷ [])
        r
        (set_content_type_from_extension extension r)
unfolding set_content_type_from_extension
set_content_type_from_extension-Sets extension r h =
    let name = codes "Content-Type" in
    let kind = content_type_lookup extension in
    let left = erase name r.fields in
    let ordered = erase-IsOrdered name r.fields h in
    (
      emplace-IsOrdered name kind left ordered,
      Sets-fields name _ r.fields _
          (values-emplace name kind left ordered
            ∙ ap (λ vs. vs ++ (kind ∷ [])) (values-erase name r.fields))
          (λ other k.
            values-emplace_other other name kind left k ∙ values-erase_other other name r.fields k),
    )
