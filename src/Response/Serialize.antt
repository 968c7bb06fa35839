-- ===== src/Response/Serialize.antt =====
-- What `serialize` writes, for the reader of the fields and for the one of the body.
use cndl.Base.{
  ◌⊎◌, inl, inr, ◌≡◌, refl, ap, ◌∙◌, [], ◌∷◌, ◌++◌, append_assoc, Bytes, codes, Option, none, some,
  length, ok, err, out_of_range, if◌then◌else◌, Bool-cases, inl, inr,
}
use cndl.Request.Fields.{crlf}
use cndl.Request.Headers.{header_line, written}
use cndl.Response.Tables.{code2reason}
use cndl.Response.Decimal.{decimal}
use cndl.Response.Fields.{Fields, has}
use cndl.Response.Types.{
  Response, find_reason, reason_for, reason_of, field_lines, length_line, body_bytes, serialize,
}

-- The length that is added, as a field.
abbrev pub length_field : Option Bytes → Fields → Fields
length_field none fields = []
length_field (some body) fields =
    if has (codes "Content-Length") fields
    then []
    else (codes "Content-Length", decimal (length body)) ∷ []

abbrev pub sent_fields : Response → Fields
sent_fields r = r.fields ++ length_field r.message_body r.fields

abbrev pub status_line : Response → Bytes → Bytes
status_line r reason =
    r.version ++ codes " " ++ decimal r.status_code ++ codes " " ++ reason ++ crlf

length_line-written :
    (body : Option Bytes) (fields : Fields)
    → length_line body fields ≡ written (length_field body fields)
unfolding length_line
length_line-written none fields = refl
length_line-written (some body) fields = elim (Bool-cases (has (codes "Content-Length") fields)) [
  | inl given ↦ rw given
  | inr missing ↦ rw missing refl
]

field_lines-written :
    (fields more : Fields) → field_lines fields ++ written more ≡ written (fields ++ more)
unfolding field_lines
field_lines-written [] more = refl
field_lines-written ((name, value) ∷ fields) more =
    let line = header_line name value in
    ap (λ t. t ++ crlf ++ field_lines fields ++ written more) (append_assoc name (codes ": ") value)
    ∙ append_assoc (line ++ crlf) (field_lines fields) (written more)
    ∙ ap (λ t. line ++ crlf ++ t) (field_lines-written fields more)
    ∙ append_assoc line crlf (written (fields ++ more))

reason_for-cases :
    (phrase : Bytes) (found : Option Bytes)
    → ((reason : Bytes) × (reason_for phrase found ≡ ok reason))
      ⊎ ((phrase ≡ []) × (found ≡ none) × (reason_for phrase found ≡ err out_of_range))
reason_for-cases [] none = inr (refl, refl, refl)
reason_for-cases [] (some reason) = inl (reason, refl)
reason_for-cases (c ∷ phrase) found = inl (c ∷ phrase, refl)

section_of :
    (r : Response)
    → field_lines r.fields ++ length_line r.message_body r.fields ≡ written (sent_fields r)
section_of r =
    ap (λ t. field_lines r.fields ++ t) (length_line-written r.message_body r.fields)
    ∙ field_lines-written r.fields (length_field r.message_body r.fields)

pub serialize-ok :
    (r : Response) (reason : Bytes)
    → reason_of r ≡ ok reason
    → serialize r
      ≡ ok (status_line r reason ++ written (sent_fields r) ++ crlf ++ body_bytes r.message_body)
unfolding serialize
serialize-ok r reason h = rw h (
    ap (λ t. ok (t ++ crlf ++ body_bytes r.message_body))
      (append_assoc (status_line r reason) (field_lines r.fields)
          (length_line r.message_body r.fields)
        ∙ ap (λ t. status_line r reason ++ t) (section_of r)))

-- A response with a reason phrase, of its own or of the table, is sent as its status line, its
-- fields and, with a body and no length among the fields, the length of the body, then an empty line
-- and the body; for any other response, which has an empty phrase and a code that is not in the
-- table, `std::out_of_range` is thrown.
pub serialize_lem :
    (r : Response)
    → ((reason : Bytes) × (reason_of r ≡ ok reason)
        × (serialize r
            ≡ ok (
                status_line r reason
                ++ written (sent_fields r)
                ++ crlf
                ++ body_bytes r.message_body)))
      ⊎ ((r.reason_phrase ≡ [])
          × (find_reason r.status_code code2reason ≡ none)
          × (serialize r ≡ err out_of_range))
unfolding serialize reason_of
serialize_lem r = elim (reason_for-cases r.reason_phrase (find_reason r.status_code code2reason)) [
  | inl (reason, known) ↦ inl (reason, known, serialize-ok r reason known)
  | inr (empty, missing, thrown) ↦ inr (empty, missing, rw thrown)
]
