-- ===== src/Response/Received.antt =====
-- The fields of a sent response, read by the parser of the requests.
use cndl.Base.{
  ℕ, ◌-◌, ◌<◌, ◌^◌, ◌≡◌, refl, ap, ◌∙◌, [], ◌∷◌, ◌++◌, Bytes, codes, Bool, true, false, Option,
  none, some, List, length, ok, Bool-cases, inl, inr, arith, All, ◌==◌, is_char, none_of,
  index_where, last_index_where, substr, find_where, All-append,
}
use cndl.Request.Url.{url_unescape, unescape_loop, read_escape}
use cndl.Request.Unescape.{url_unescape-eq-reference, unescape-eq_self}
use cndl.Request.Reference.{mark_alone}
use cndl.Request.Fields.{crlf, parse_fields, illegal_chars, to_lower}
use cndl.Request.Headers.{
  written, lowered, IsField, IsNameChar, IsTrimmed, SameFields, parse_fields-written,
}
use cndl.Response.Decimal.{decimal, IsDigit, decimal-AreDigits, length-decimal, filled-decimal}
use cndl.Response.Fields.{Fields, has}
use cndl.Response.Types.{Response, reason_of, body_bytes, serialize}
use cndl.Response.Serialize.{length_field, sent_fields, status_line, serialize-ok}

-- What holds of each digit holds of a list of digits.
All-digits :
    (p : ℕ → Bool) (b : Bool)
    → ((d : ℕ) → IsDigit d → p d ≡ b)
    → (ds : Bytes) → All IsDigit ds
    → All (λ x. p x ≡ b) ds
All-digits p b h [] k = tt
All-digits p b h (d ∷ ds) k = (h d k.0, All-digits p b h ds k.1)

digit-legal : (d : ℕ) → IsDigit d → none_of illegal_chars d ≡ true
digit-legal d h = ground arith

first_passes :
    (p : ℕ → Bool) (ds : Bytes)
    → 0 < length ds
    → All (λ x. p x ≡ true) ds
    → index_where p ds ≡ some 0
first_passes p [] n h = absurd (omega arith)
first_passes p (d ∷ ds) n h = rw h.0

last_passes :
    (p : ℕ → Bool) (d : ℕ) (ds : Bytes)
    → All (λ x. p x ≡ true) (d ∷ ds)
    → last_index_where p (d ∷ ds) ≡ some (length ds)
last_passes p d [] h = rw h.0
last_passes p d (e ∷ ds) h = rw (last_passes p e ds h.1)

last_at_end :
    (p : ℕ → Bool) (ds : Bytes)
    → 0 < length ds
    → All (λ x. p x ≡ true) ds
    → last_index_where p ds ≡ some (length ds - 1)
last_at_end p [] n h = absurd (omega arith)
last_at_end p (d ∷ ds) n h = last_passes p d ds h ∙ ap some (omega arith)

digits-IsTrimmed : (n : ℕ) → IsTrimmed (decimal n)
digits-IsTrimmed n =
    let p = none_of illegal_chars in
    let passes = All-digits p true digit-legal (decimal n) (decimal-AreDigits n) in
    let filled = filled-decimal n in
    (filled, first_passes p (decimal n) filled passes, last_at_end p (decimal n) filled passes)

mark_alone-digits : (ds : Bytes) → All IsDigit ds → mark_alone ds ≡ false
mark_alone-digits [] h = refl
mark_alone-digits (d ∷ []) h = let k = h.0 in ground arith
mark_alone-digits (d ∷ e ∷ ds) h = let k = h.0 in ground arith

url_unescape-decimal : (n : ℕ) → n < 2 ^ 63 → url_unescape (decimal n) ≡ ok (decimal n)
url_unescape-decimal n h =
    let ds = decimal-AreDigits n in
    url_unescape-eq-reference (decimal n) (omega (arith, length-decimal n))
    ∙ rw (mark_alone-digits (decimal n) ds) (
        unescape-eq_self (decimal n)
          (All-digits (is_char b'%') false (λ d k. ground arith) (decimal n) ds))

length_name-plain :
    url_unescape (to_lower (codes "Content-Length")) ≡ ok (to_lower (codes "Content-Length"))
unfolding url_unescape unescape_loop to_lower read_escape substr find_where
length_name-plain = refl

length_name-legal : All IsNameChar (codes "Content-Length")
length_name-legal = ground arith

length_name-line : All (λ x. (x == b'\r') ≡ false) (codes "Content-Length: ")
length_name-line = ground arith

pub length-IsField : (n : ℕ) → n < 2 ^ 63 → IsField (codes "Content-Length", decimal n)
length-IsField n h = (
  omega arith,
  length_name-legal,
  digits-IsTrimmed n,
  All-append (λ x. (x == b'\r') ≡ false) (codes "Content-Length: ") (decimal n) length_name-line
      (All-digits (λ x. x == b'\r') false (λ d k. ground arith) (decimal n) (decimal-AreDigits n)),
  length_name-plain,
  url_unescape-decimal n h,
)

All-sent_fields :
    (body : Option Bytes) (fields : Fields)
    → length (body_bytes body) < 2 ^ 63
    → All IsField fields
    → All IsField (length_field body fields)
All-sent_fields none fields h k = tt
All-sent_fields (some body) fields h k = elim (Bool-cases (has (codes "Content-Length") fields)) [
  | inl given ↦ rw given tt
  | inr missing ↦ rw missing (length-IsField (length body) h, tt)
]

-- A response with a reason phrase, of its own or of the table, whose fields can be read and take
-- fewer than 2^32 - 1 bytes, and with a body of less than 2^63 bytes, is sent as its status line, a block, an empty line and the body,
-- and the parser of requests reads from the block the fields, each as often as it is in the response
-- and with its name in lower case, and the length of a body for which no length was given, and
-- nothing else.
pub serialize-parse_fields :
    (r : Response) (reason : Bytes)
    → reason_of r ≡ ok reason
    → length (body_bytes r.message_body) < 2 ^ 63
    → All IsField r.fields
    → length (written (sent_fields r)) < 2 ^ 32 - 1
    → (block : Bytes) × (serialize r
        ≡ ok (status_line r reason ++ block ++ crlf ++ body_bytes r.message_body))
      × (entries : List (Bytes × Bytes)) × (parse_fields block ≡ ok entries)
      × SameFields entries (lowered (r.fields ++ length_field r.message_body r.fields))
serialize-parse_fields r reason h short readable fits =
    let (entries, read, same) =
      parse_fields-written (sent_fields r)
        (All-append IsField r.fields (length_field r.message_body r.fields) readable
          (All-sent_fields r.message_body r.fields short readable))
        fits in
    (written (sent_fields r), serialize-ok r reason h, entries, read, same)
