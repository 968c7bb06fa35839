-- ===== src/Request/Multipart.antt =====
-- `readMultipartBody` of Request.cpp.
use cndl.Base.{
  ℕ, zero, suc, ◌+◌, ◌-◌, List, [], ◌∷◌, ◌++◌, Bytes, codes, length, take, ltb, str_eq,
  if◌then◌else◌, Option, none, some, Result, ok, err, ◌>>=◌, error, stuck, substr, find_text,
  index_of,
}
use cndl.Request.Fields.{FieldVal, word, kv_pair, FieldMap, extract_field_vals, crlf, parse_fields}
use cndl.Request.Types.{BodyArg}
use cndl.Request.Parse.{find_field}

abbrev pub refuse : {A : Type 0} → Bytes → Result A
refuse what = err (error 400 what)

-- The value of the first pair with the key `name`.
unfoldable pub name_of : List FieldVal → Option Bytes
name_of [] = none
name_of (word text ∷ vals) = name_of vals
name_of (kv_pair key value ∷ vals) = if str_eq key (codes "name") then some value else name_of vals

abbrev pub field_of : FieldVal → Bytes × Bytes
field_of (word text) = (text, [])
field_of (kv_pair key value) = (key, value)

abbrev pub fields_of : List FieldVal → FieldMap
fields_of [] = []
fields_of (val ∷ vals) = field_of val ∷ fields_of vals

abbrev pub disposition_of : FieldMap → Result Bytes
disposition_of fields = elim (find_field (codes "content-disposition") fields) [
  | none ↦ refuse (codes "missing content-disposition header in multipart body")
  | some value ↦ ok value
]

abbrev pub named : List FieldVal → BodyArg → Result (Bytes × BodyArg)
named cd_split ba = elim (name_of cd_split) [
  | none ↦ refuse (codes "missing name field in content-disposition")
  | some name ↦ ok (name, ba)
]

-- One part, from behind the line end of its boundary to before the line end of the next.
unfoldable pub read_part : Bytes → Result (Bytes × BodyArg)
read_part content = elim (index_of (codes "\r\n\r\n") content) [
  | none ↦ refuse (codes "missing header information in multipart body")
  | some header_end ↦ (do
    fields ← parse_fields (take (header_end + 2) content)
    disposition ← disposition_of fields
    cd_split ← extract_field_vals disposition (codes ";,")
    body_content ← substr (header_end + 4) none content
    named cd_split (record { fields = fields_of cd_split ++ fields; content = body_content }))
]

abbrev pub BodyArgMap : Type 0
BodyArgMap = List (Bytes × BodyArg)

-- The part between two places, with what the loop does behind it.
unfoldable pub read_between :
    Bytes → ℕ → Option ℕ → BodyArgMap → (BodyArgMap → Result BodyArgMap) → Result BodyArgMap
read_between body start none body_args next = ok body_args
read_between body start (some body_end) body_args next =
    if ltb body_end (start + 4) then ok body_args else (do
      term ← substr (body_end - 4) (some 4) body
      if str_eq term (codes "\r\n--")
          then (do
            content ← substr start (some (body_end - start - 4)) body
            entry ← read_part content
            next (body_args ++ (entry ∷ [])))
          else refuse (codes "invalid termination of multipart body"))

-- The loop, from the place of a boundary on.
unfoldable pub multipart_loop : ℕ → Bytes → Bytes → Option ℕ → BodyArgMap → Result BodyArgMap
multipart_loop zero body boundary found body_args = err stuck
multipart_loop (suc rounds) body boundary none body_args = ok body_args
multipart_loop (suc rounds) body boundary (some place) body_args =
    let start = place + length boundary in
    let next = find_text boundary (start + 2) body in
    do
      mark ← substr start (some 2) body
      if str_eq mark (codes "--")
          then ok body_args
          else if str_eq mark crlf
          then read_between body (start + 2) next body_args
              (multipart_loop rounds body boundary next)
          else refuse (codes "missing CRLF after boundary")

-- A round passes two characters, so that one round for each character and one more are enough.
unfoldable pub read_multipart_body : Bytes → Bytes → Result BodyArgMap
read_multipart_body body boundary =
    multipart_loop (length body + 1) body boundary (find_text boundary 0 body) []
