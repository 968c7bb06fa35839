-- ===== src/Http/Head.antt =====
-- The end of a header is found where a client ends it, and the header is read.
use cndl.Base.{
  ℕ, ◌+◌, ◌<◌, ◌≡◌, refl, ap, ◌∙◌, List, [], ◌∷◌, ◌++◌, append_assoc, Bytes, codes, length,
  length-append, All, some, index_of, arith,
}
use cndl.Request.Fields.{crlf}
use cndl.Request.Lines.{IsLine}
use cndl.Request.Headers.{IsField, header_line, written}
use cndl.Request.RequestLine.{request_line}

abbrev pub crlfcrlf : Bytes
crlfcrlf = codes "\r\n\r\n"

skip_line :
    (line v : Bytes) {i : ℕ}
    → IsLine line
    → index_of crlfcrlf v ≡ some i
    → index_of crlfcrlf (line ++ v) ≡ some (length line + i)
skip_line [] v h e = e ∙ ap some (omega arith)
skip_line (x ∷ line) v {i} h e = rw (h.0, skip_line line v h.1 e) (ap some (omega arith))

skip_filled :
    (line v : Bytes) {i : ℕ}
    → 0 < length line
    → IsLine line
    → index_of crlfcrlf v ≡ some i
    → index_of crlfcrlf (crlf ++ (line ++ v)) ≡ some (2 + (length line + i))
skip_filled [] v filled h e = absurd (omega arith)
skip_filled (x ∷ line) v {i} filled h e = rw (h.0, skip_line line v h.1 e) (ap some (omega arith))

behind_line : (line v w : Bytes) → line ++ (crlf ++ v) ++ w ≡ line ++ (crlf ++ (v ++ w))
behind_line line v w = append_assoc line (crlf ++ v) w

behind_fields :
    (fields : List (Bytes × Bytes)) (rest : Bytes)
    → All IsField fields
    → index_of crlfcrlf (crlf ++ (written fields ++ (crlf ++ rest)))
      ≡ some (length (written fields))
behind_fields [] rest h = refl
behind_fields ((name, value) ∷ fields) rest h =
    let line = header_line name value in
    let filled = length-append name (codes ": " ++ value) in
    let later = behind_fields fields rest h.1 in
    let size = length-append line (crlf ++ written fields) in
    ap (λ t. index_of crlfcrlf (crlf ++ t)) (behind_line line (written fields) (crlf ++ rest))
    ∙ skip_filled line (crlf ++ (written fields ++ (crlf ++ rest))) (omega arith) h.0.3 later
    ∙ ap some (omega arith)

-- The header of a request as a client writes it.
abbrev pub request_head : Bytes → Bytes → Bytes → List (Bytes × Bytes) → Bytes
request_head method target version fields =
    request_line method target version ++ (crlf ++ written fields)

module _ (method target version : Bytes) (fields : List (Bytes × Bytes)) (rest : Bytes) where
  abbrev head : Bytes
  head = request_head method target version fields

  whole :
      head ++ (crlf ++ rest)
      ≡ request_line method target version ++ (crlf ++ (written fields ++ (crlf ++ rest)))
  whole = append_assoc (request_line method target version) (crlf ++ written fields) (crlf ++ rest)

  pub head_end :
      IsLine (request_line method target version)
      → All IsField fields
      → (idx : ℕ) × (index_of crlfcrlf (head ++ (crlf ++ rest)) ≡ some idx)
        × (length head ≡ idx + 2)
  head_end line readable =
      let words = request_line method target version in
      let size = length-append words (crlf ++ written fields) in
      (
        length words + length (written fields),
        ap (index_of crlfcrlf) whole
            ∙ skip_line words (crlf ++ (written fields ++ (crlf ++ rest))) line
                (behind_fields fields rest readable),
        omega arith,
      )
