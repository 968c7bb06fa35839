-- ===== src/Request/Headers.antt =====
-- A header line is read as its lower-case name and its value.
use cndl.Base.{
  ℕ, ◌&&◌, ltb, str_eq, if◌then◌else◌, ◌+◌, ◌-◌, ◌^◌, ◌<◌, ◌≡◌, refl, sym, ap, ◌∙◌, false, List, [],
  ◌∷◌, ◌++◌, Bytes, codes, length, take, drop, All, ◌==◌, some, ok, arith, index_where,
  last_index_where, find_where, substr, one_of, none_of, is_char, index_where-append,
  index_where-eq-none, last_index_where-append, take-append_length, drop-append_length,
  length-append, ge→ltb, drop-add,
}
use cndl.Request.Url.{url_unescape}
use cndl.Request.Fields.{
  illegal_chars, lower, to_lower, read_value, split_line, read_line, crlf, parse_fields,
}
use cndl.Request.Lines.{IsLine, join_lines, read_lines, parse_fields-join_lines}

-- A character of a name: no colon, and none of the illegal ones.
abbrev pub IsNameChar : ℕ → Type 0
IsNameChar x = (is_char b':' x ≡ false) × (one_of illegal_chars x ≡ false)

-- A value that is not empty and has no illegal character at its ends.
abbrev pub IsTrimmed : Bytes → Type 0
IsTrimmed v =
    (0 < length v)
    × (index_where (none_of illegal_chars) v ≡ some 0)
    × (last_index_where (none_of illegal_chars) v ≡ some (length v - 1))

abbrev pub header_line : Bytes → Bytes → Bytes
header_line name value = name ++ (codes ": " ++ value)

All-is_char : (name : Bytes) → All IsNameChar name → All (λ x. is_char b':' x ≡ false) name
All-is_char [] h = tt
All-is_char (x ∷ name) h = (h.0.0, All-is_char name h.1)

lower_legal : (x : ℕ) → one_of illegal_chars x ≡ false → one_of illegal_chars (lower x) ≡ false
lower_legal x h = ground arith

to_lower-legal :
    (name : Bytes) → All IsNameChar name → All (λ x. one_of illegal_chars x ≡ false) (to_lower name)
unfolding to_lower
to_lower-legal [] h = tt
to_lower-legal (x ∷ name) h = (lower_legal x h.0.1, to_lower-legal name h.1)

take-length : (xs : Bytes) → take (length xs) xs ≡ xs
take-length [] = refl
take-length (x ∷ xs) = ap (◌∷◌ x) (take-length xs)

plus-zero : (n : ℕ) → n + 0 ≡ n
plus-zero n = omega arith

nonzero : (n : ℕ) → 0 < n → (n == 0) ≡ false
nonzero n h = ground arith

module _ (name value : Bytes) (trimmed : IsTrimmed value) where
  read_value-header_line : read_value (header_line name value) (length name) ≡ ok value
  unfolding read_value find_where substr
  read_value-header_line =
      let line = header_line name value in
      let n = length name in
      let tail = drop-append_length n name (codes ": " ++ value) refl in
      let behind : drop (n + 1) line ≡ b' ' ∷ value = drop-add 1 n line ∙ ap (drop 1) tail in
      let last =
        last_index_where-append (none_of illegal_chars) name (codes ": " ++ value)
          (last_index_where-append (none_of illegal_chars) (codes ": ") value trimmed.2) in
      let begin : n + 1 + 1 ≡ n + 2 = omega arith in
      let count : n + (2 + (length value - 1)) - (n + 2) + 1 ≡ length value =
        omega (arith, trimmed.0) in
      let from : drop (n + 2) line ≡ value = drop-add 2 n line ∙ ap (drop 2) tail in
      rw (
        behind,
        trimmed.1,
        last,
        begin,
        ge→ltb (n + (2 + (length value - 1))) (n + 2) (omega arith),
        count,
        ge→ltb (length line) (n + 2) (omega (arith, length-append name (codes ": " ++ value))),
        from,
        take-length value,
        read_value,
      )

  -- A line of a name, a colon, a space and a value, where the name is not empty and has no colon and
  -- no white space, and the value is not empty and has no white space at its ends, is split into the
  -- name in lower case and the value.
  pub split_line-header_line :
      0 < length name
      → All IsNameChar name
      → split_line (header_line name value) ≡ ok (to_lower name, value)
  unfolding split_line
  split_line-header_line filled legal = rw (
    index_where-append (is_char b':') name (codes ": " ++ value) (All-is_char name legal) refl
        ∙ ap some (plus-zero (length name)),
    nonzero (length name) filled,
    take-append_length (length name) name (codes ": " ++ value) refl,
    index_where-eq-none (one_of illegal_chars) (to_lower name) (to_lower-legal name legal),
    read_value-header_line,
    take-append_length (length name) name (codes ": " ++ value) refl,
    split_line,
  )

-- A header as a client writes it.
abbrev pub written : List (Bytes × Bytes) → Bytes
written [] = []
written ((name, value) ∷ fields) = header_line name value ++ (crlf ++ written fields)

-- A field that comes through: name and value as above, no carriage return, and nothing that
-- `url_unescape` would change.
abbrev pub IsField : Bytes × Bytes → Type 0
IsField (name, value) =
    (0 < length name)
    × All IsNameChar name
    × IsTrimmed value
    × IsLine (header_line name value)
    × (url_unescape (to_lower name) ≡ ok (to_lower name))
    × (url_unescape value ≡ ok value)

-- A letter in lower case, in ASCII.
abbrev pub small : ℕ → ℕ
small c = if ltb 64 c && ltb c 91 then c + 32 else c

abbrev pub small_letters : Bytes → Bytes
small_letters [] = []
small_letters (c ∷ name) = small c ∷ small_letters name

lower-eq : (c : ℕ) → lower c ≡ small c
lower-eq c = ground arith

pub to_lower-eq : (name : Bytes) → to_lower name ≡ small_letters name
unfolding to_lower
to_lower-eq [] = refl
to_lower-eq (c ∷ name) =
    ap (◌∷◌ (lower c)) (to_lower-eq name) ∙ ap (λ x. x ∷ small_letters name) (lower-eq c)

-- The fields with their names in lower case.
abbrev pub lowered : List (Bytes × Bytes) → List (Bytes × Bytes)
lowered [] = []
lowered ((name, value) ∷ fields) = (small_letters name, value) ∷ lowered fields

lines_of : List (Bytes × Bytes) → List Bytes
lines_of [] = []
lines_of ((name, value) ∷ fields) = header_line name value ∷ lines_of fields

join_lines-lines_of :
    (fields : List (Bytes × Bytes)) → join_lines (lines_of fields) ≡ written fields
unfolding lines_of
join_lines-lines_of [] = refl
join_lines-lines_of ((name, value) ∷ fields) = rw (join_lines-lines_of fields)

IsLine-lines_of :
    (fields : List (Bytes × Bytes)) → All IsField fields → All IsLine (lines_of fields)
unfolding lines_of
IsLine-lines_of [] h = tt
IsLine-lines_of ((name, value) ∷ fields) h = (h.0.3, IsLine-lines_of fields h.1)

read_lines-lines_of :
    (fields : List (Bytes × Bytes))
    → All IsField fields
    → read_lines (lines_of fields) ≡ ok (lowered fields)
unfolding lines_of read_line
read_lines-lines_of [] h = refl
read_lines-lines_of ((name, value) ∷ fields) ((filled, legal, trimmed, line, plain, plain'), h) =
    rw (
      split_line-header_line name value trimmed filled legal,
      plain,
      plain',
      read_lines-lines_of fields h,
      to_lower-eq name,
    )

-- The fields are put into the map one after the other.
pub parse_fields-lowered :
    (fields : List (Bytes × Bytes))
    → All IsField fields
    → parse_fields (written fields) ≡ ok (lowered fields)
parse_fields-lowered fields h =
    ap parse_fields (sym (join_lines-lines_of fields))
    ∙ parse_fields-join_lines (lines_of fields) (IsLine-lines_of fields h)
    ∙ read_lines-lines_of fields h

-- How often a field is there. The map of the code has no order for fields of the same name.
abbrev pub occurrences : Bytes → Bytes → List (Bytes × Bytes) → ℕ
occurrences name value [] = 0
occurrences name value ((n, v) ∷ fields) =
    (if str_eq name n && str_eq value v then 1 else 0) + occurrences name value fields

-- Two maps hold the same fields, each as often.
abbrev pub SameFields : List (Bytes × Bytes) → List (Bytes × Bytes) → Type 0
SameFields entries fields =
    (name value : Bytes) → occurrences name value entries ≡ occurrences name value fields

pub parse_fields-written :
    (fields : List (Bytes × Bytes))
    → All IsField fields
    → length (written fields) < 2 ^ 32 - 1
    → (entries : List (Bytes × Bytes)) × (parse_fields (written fields) ≡ ok entries)
      × SameFields entries (lowered fields)
parse_fields-written fields h fits =
    (lowered fields, parse_fields-lowered fields h, λ name value. refl)
