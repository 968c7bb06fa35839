-- ===== src/Request/Lines.antt =====
-- `parse_fields` reads a header line by line, and reads back what a client writes.
use cndl.Base.{
  ℕ, zero, suc, ◌+◌, ◌-◌, ◌≤◌, ◌<◌, ◌≡◌, refl, ap, ◌∙◌, false, List, [], ◌∷◌, ◌++◌, Bytes, length,
  drop, All, ◌==◌, some, Result, ok, err, ◌>>=◌, arith, index_of, find_text, substr,
  take-append_length, drop-append_length, append_assoc, append-nil, length-append, ge→ltb, lt→ltb,
  drop-add, length-drop,
}
use cndl.Request.Fields.{FieldMap, read_line, crlf, parse_fields_loop, parse_fields}

abbrev pub IsLine : Bytes → Type 0
IsLine = All λ x. (x == b'\r') ≡ false

pub index_of-crlf :
    (line rest : Bytes) → IsLine line → index_of crlf (line ++ (crlf ++ rest)) ≡ some (length line)
index_of-crlf [] rest h = refl
index_of-crlf (x ∷ line) rest h = rw (h.0, index_of-crlf line rest h.1)

-- The lines of a header, each with its end.
abbrev pub join_lines : List Bytes → Bytes
join_lines [] = []
join_lines (line ∷ lines) = line ++ (crlf ++ join_lines lines)

-- The lines read one after the other.
abbrev pub read_lines : List Bytes → Result FieldMap
read_lines [] = ok []
read_lines (line ∷ lines) = do entry ← read_line line; later ← read_lines lines; ok (entry ∷ later)

entry_cases :
    (m : Result (Bytes × Bytes)) (f : Bytes × Bytes → Result FieldMap) (r : Result FieldMap)
    (found : FieldMap)
    → ((entry : Bytes × Bytes) → f entry ≡ (r >>= λ later. ok ((found ++ (entry ∷ [])) ++ later)))
    → (m >>= f)
      ≡ ((m >>= λ entry. (r >>= λ later. ok (entry ∷ later))) >>= λ all. ok (found ++ all))
entry_cases (err x) f r found h = refl
entry_cases (ok entry) f (err x) found h = h entry
entry_cases (ok entry) f (ok later) found h =
    h entry ∙ ap ok (append_assoc found (entry ∷ []) later)

module _ (fields : Bytes) where
  parse_fields_loop-step :
      (rounds pos : ℕ) (found : FieldMap) (line rest : Bytes)
      → IsLine line
      → pos ≤ length fields
      → drop pos fields ≡ line ++ (crlf ++ rest)
      → parse_fields_loop (suc rounds) fields pos found ≡ (
          read_line line >>= λ entry.
          parse_fields_loop rounds fields (pos + length line + 2) (found ++ (entry ∷ [])))
  unfolding parse_fields_loop find_text substr
  parse_fields_loop-step rounds pos found line rest h fits e =
      let size = length-append line (crlf ++ rest) in
      let inside : pos < length fields = omega (arith, ap length e, length-drop pos fields) in
      let sub : pos + length line - pos ≡ length line = omega arith in
      rw (
        lt→ltb pos (length fields) inside,
        e,
        index_of-crlf line rest h,
        ge→ltb (length fields) pos fits,
        sub,
        e,
        take-append_length (length line) line (crlf ++ rest) refl,
      )

  parse_fields_loop-join_lines :
      (rounds pos : ℕ) (found : FieldMap) (lines : List Bytes)
      → All IsLine lines
      → pos ≤ length fields
      → drop pos fields ≡ join_lines lines
      → length lines < rounds
      → parse_fields_loop rounds fields pos found
        ≡ (read_lines lines >>= λ entries. ok (found ++ entries))
  parse_fields_loop-join_lines zero pos found lines h fits e enough = absurd (omega arith)
  parse_fields_loop-join_lines (suc rounds) pos found [] h fits e enough =
      let full : length fields ≤ pos = omega (arith, ap length e, length-drop pos fields) in
      unfold parse_fields_loop in rw (ge→ltb pos (length fields) full, append-nil found)
  parse_fields_loop-join_lines (suc rounds) pos found (line ∷ lines) h fits e enough =
      let size = length-append line (crlf ++ join_lines lines) in
      let inside : pos + length line + 2 ≤ length fields =
        omega (arith, ap length e, length-drop pos fields) in
      let behind : drop (pos + length line + 2) fields ≡ join_lines lines =
        drop-add 2 (pos + length line) fields
        ∙ ap (drop 2) (
            drop-add (length line) pos fields
            ∙ ap (drop (length line)) e
            ∙ drop-append_length (length line) line (crlf ++ join_lines lines) refl) in
      parse_fields_loop-step rounds pos found line (join_lines lines) h.0 fits e
      ∙ entry_cases (read_line line) _ (read_lines lines) found (λ entry.
        parse_fields_loop-join_lines rounds (pos + length line + 2) (found ++ (entry ∷ [])) lines
          h.1 inside behind (omega arith))

lines-le-length : (lines : List Bytes) → length lines ≤ length (join_lines lines)
lines-le-length [] = omega arith
lines-le-length (line ∷ lines) =
    omega (arith, length-append line (crlf ++ join_lines lines), lines-le-length lines)

-- On lines that hold no carriage return, each with its end behind it, `parse_fields` reads the
-- lines one after the other, in their order, and stops with the first exception.
pub parse_fields-join_lines :
    (lines : List Bytes) → All IsLine lines → parse_fields (join_lines lines) ≡ read_lines lines
unfolding parse_fields
parse_fields-join_lines lines h =
    parse_fields_loop-join_lines (join_lines lines) (length (join_lines lines) + 1) 0 [] lines h
      (omega arith) refl (omega (arith, lines-le-length lines))
    ∙ same (read_lines lines)
  where
    same : (r : Result FieldMap) → (r >>= λ entries. ok entries) ≡ r
    same (ok x) = refl
    same (err x) = refl
