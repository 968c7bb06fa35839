-- ===== src/Request/Rounds.antt =====
-- The loops of the parser end before their rounds are used up.
use cndl.Base.{
  ℕ, zero, suc, ◌+◌, ◌-◌, ◌≤◌, ◌<◌, ◌≡◌, inl, inr, Bool, true, false, List, [], ◌∷◌, Bytes, length,
  take, drop, ltb, ltb→lt, ◌==◌, if◌then◌else◌, Option, none, some, Result, ok, err, ◌>>=◌, error,
  runtime_error, out_of_range, invalid_argument, length_error, undefined, stuck, at, substr,
  find_where, find_text, index_where, index_of, index_where-Cut, length-drop, one_of, none_of,
  is_char, last_index_where, arith, Bool-cases, Option-cases,
}
use cndl.Request.Url.{
  up_to, size_less_two, hex_digit, negated, read_escape, unescape_loop, url_unescape,
}
use cndl.Request.Fields.{
  FieldVal, FieldMap, spaces, illegal_chars, to_lower, remove_quots, read_field, is_nil, trim_right,
  extract_loop, extract_field_vals, read_value, split_line, read_line, crlf, parse_fields_loop,
  parse_fields,
}

-- The call ends by itself, with a value or an exception of the code.
abbrev pub Ends : {A : Type 0} → Result A → Type 0
Ends (ok a) = Unit
Ends (err stuck) = ⊥
Ends (err _) = Unit

module _ {A B : Type 0} where
  pub Ends->>= :
      (m : Result A) (f : A → Result B) → Ends m → ((a : A) → Ends (f a)) → Ends (m >>= f)
  Ends->>= (ok a) f h k = k a
  Ends->>= (err out_of_range) f h k = tt
  Ends->>= (err invalid_argument) f h k = tt
  Ends->>= (err length_error) f h k = tt
  Ends->>= (err undefined) f h k = tt
  Ends->>= (err (error code what)) f h k = tt
  Ends->>= (err (runtime_error what)) f h k = tt
  Ends->>= (err stuck) f h k = h

module _ {A : Type 0} where
  pub Ends-if : (b : Bool) (m n : Result A) → Ends m → Ends n → Ends (if b then m else n)
  Ends-if true m n h k = h
  Ends-if false m n h k = k

pub substr-Ends : (pos : ℕ) (count : Option ℕ) (v : Bytes) → Ends (substr pos count v)
unfolding substr
substr-Ends pos none v = Ends-if (ltb (length v) pos) _ _ tt tt
substr-Ends pos (some count) v = Ends-if (ltb (length v) pos) _ _ tt tt

at-Ends : (v : Bytes) (i : ℕ) → Ends (at v i)
at-Ends [] i = tt
at-Ends (x ∷ v) zero = tt
at-Ends (x ∷ v) (suc i) = at-Ends v i

negated-Ends : (d : Option ℕ) → Ends (negated d)
negated-Ends none = tt
negated-Ends (some d) = tt

read_escape-Ends : (str : Bytes) (pos : ℕ) → Ends (read_escape str pos)
unfolding read_escape
read_escape-Ends str pos = Ends->>= (at str (pos + 1)) _ (at-Ends str (pos + 1)) (λ first.
    elim (Option-cases (hex_digit first)) [
      | inl other ↦ rw other (
          Ends-if (first == b'-') _ _
            (Ends->>= (at str (pos + 2)) _ (at-Ends str (pos + 2))
              (λ second. negated-Ends (hex_digit second)))
            tt)
      | inr (high, digit) ↦
          rw digit (Ends->>= (at str (pos + 2)) _ (at-Ends str (pos + 2)) (λ second. tt))
    ])

-- What is found stands behind the start and inside the text.
found_inside :
    (p : ℕ → Bool) (start : ℕ) (v : Bytes) {i : ℕ}
    → find_where p start v ≡ some i
    → (start ≤ i) × (i < length v)
unfolding find_where
found_inside p start v {i} h = elim (Option-cases (index_where p (drop start v))) [
  | inl nothing ↦ absurd (ground (arith, nothing))
  | inr (j, found) ↦
      let cut = index_where-Cut p (drop start v) found in
      let e : start + j ≡ i = ground (arith, found) in
      (omega arith, omega (arith, cut.inside, length-drop start v))
]

pub found_behind :
    (text : Bytes) (start : ℕ) (v : Bytes) {i : ℕ} → find_text text start v ≡ some i → start ≤ i
unfolding find_text
found_behind text start v {i} h = elim (Option-cases (index_of text (drop start v))) [
  | inl nothing ↦ absurd (ground (arith, nothing))
  | inr (j, found) ↦ let e : start + j ≡ i = ground (arith, found) in omega arith
]

unescape_loop-Ends :
    (rounds : ℕ) (str : Bytes) (start : ℕ) (unescaped : Bytes)
    → length str - start < rounds
    → Ends (unescape_loop rounds str start unescaped)
unfolding unescape_loop
unescape_loop-Ends zero str start unescaped h = absurd (omega arith)
unescape_loop-Ends (suc rounds) str start unescaped h =
    let found = find_where (is_char b'%') start str in
    Ends->>= (substr start (up_to found start) str) _ (substr-Ends start (up_to found start) str)
      (λ chunk. elim (Option-cases found) [
        | inl nothing ↦ rw nothing tt
        | inr (pos, there) ↦
            let inside = found_inside (is_char b'%') start str there in
            rw there (
              Ends-if (ltb (size_less_two str) pos) _ _ tt (
                Ends->>= (read_escape str pos) _ (read_escape-Ends str pos)
                  (λ val. unescape_loop-Ends rounds str (pos + 3) _ (omega (arith, inside)))))
      ])

pub url_unescape-Ends : (str : Bytes) → Ends (url_unescape str)
unfolding url_unescape
url_unescape-Ends str = unescape_loop-Ends (length str + 1) str 0 [] (omega arith)

read_field-Ends : (chunk : Bytes) → Ends (read_field chunk)
unfolding read_field
read_field-Ends chunk = elim (Option-cases (index_where (is_char b'=') chunk)) [
  | inl nothing ↦
      rw (nothing, read_field)
        (Ends->>= (url_unescape (remove_quots chunk)) _ (url_unescape-Ends _) (λ text. tt))
  | inr (eq_sign, there) ↦
      rw (there, read_field)
        (Ends->>= (url_unescape (remove_quots (take eq_sign chunk))) _ (url_unescape-Ends _) (λ key.
          Ends->>= (url_unescape (remove_quots (drop (eq_sign + 1) chunk))) _ (url_unescape-Ends _)
            (λ value. tt)))
]

extract_loop-Ends :
    (rounds : ℕ) (delimiters str : Bytes) (start : ℕ) (fields : List FieldVal)
    → length str - start < rounds
    → Ends (extract_loop rounds delimiters str start fields)
unfolding extract_loop
extract_loop-Ends zero delimiters str start fields h = absurd (omega arith)
extract_loop-Ends (suc rounds) delimiters str start fields h =
    elim (Option-cases (find_where (none_of spaces) start str)) [
      | inl nothing ↦ rw (nothing, extract_loop) tt
      | inr (begin, there) ↦
          let inside = found_inside (none_of spaces) start str there in
          let end = find_where (one_of delimiters) begin str in
          rw (there, extract_loop)
            (Ends->>= (substr begin (up_to end begin) str) _
              (substr-Ends begin (up_to end begin) str)
              (λ whole. Ends-if (is_nil whole) _ _ tt (
                Ends-if (is_nil (trim_right whole)) _ _ tt (
                  Ends->>= (read_field (trim_right whole)) _ (read_field-Ends (trim_right whole))
                    (λ field. elim (Option-cases end) [
                      | inl last ↦ rw last tt
                      | inr (e, more) ↦
                          let behind = found_inside (one_of delimiters) begin str more in
                          rw more (
                            extract_loop-Ends rounds delimiters str (e + 1) _
                              (omega (arith, inside, behind)))
                    ])))))
    ]

-- On every text and with all delimiters, `extract_field_vals` comes to an end by itself.
pub extract_field_vals-Ends : (str delimiters : Bytes) → Ends (extract_field_vals str delimiters)
unfolding extract_field_vals
extract_field_vals-Ends str delimiters =
    Ends-if (is_nil str) _ _ tt
      (extract_loop-Ends (length str + 1) delimiters str 0 [] (omega arith))

read_value-Ends : (line : Bytes) (colon_idx : ℕ) → Ends (read_value line colon_idx)
unfolding read_value
read_value-Ends line colon_idx =
    elim (Option-cases (find_where (none_of illegal_chars) (colon_idx + 1) line)) [
      | inl nothing ↦ rw (nothing, read_value) tt
      | inr (begin, there) ↦ elim (Option-cases (last_index_where (none_of illegal_chars) line)) [
        | inl nowhere ↦ rw (there, nowhere, read_value) tt
        | inr (end, last) ↦
            rw (there, last, read_value)
              (Ends-if (ltb end begin) _ _ tt (substr-Ends begin (some (end - begin + 1)) line))
      ]
    ]

split_line-Ends : (line : Bytes) → Ends (split_line line)
unfolding split_line
split_line-Ends line = elim (Option-cases (index_where (is_char b':') line)) [
  | inl nothing ↦ rw (nothing, split_line) tt
  | inr (colon_idx, there) ↦
      elim (Option-cases (index_where (one_of illegal_chars) (to_lower (take colon_idx line)))) [
        | inl legal ↦
            rw (there, legal, split_line)
              (Ends-if (colon_idx == 0) _ _ tt (
                Ends->>= (read_value line colon_idx) _ (read_value-Ends line colon_idx)
                  (λ value. tt)))
        | inr (i, bad) ↦ rw (there, bad, split_line) (Ends-if (colon_idx == 0) _ _ tt tt)
      ]
]

read_line-Ends : (line : Bytes) → Ends (read_line line)
unfolding read_line
read_line-Ends line = Ends->>= (split_line line) _ (split_line-Ends line) (λ entry.
    Ends->>= (url_unescape entry.0) _ (url_unescape-Ends entry.0)
      (λ name. Ends->>= (url_unescape entry.1) _ (url_unescape-Ends entry.1) (λ value. tt)))

parse_fields_loop-Ends :
    (rounds : ℕ) (fields : Bytes) (pos : ℕ) (fields_map : FieldMap)
    → length fields - pos < rounds
    → Ends (parse_fields_loop rounds fields pos fields_map)
unfolding parse_fields_loop
parse_fields_loop-Ends zero fields pos fields_map h = absurd (omega arith)
parse_fields_loop-Ends (suc rounds) fields pos fields_map h =
    elim (Bool-cases (ltb pos (length fields))) [
      | inr over ↦ rw over tt
      | inl inside ↦ elim (Option-cases (find_text crlf pos fields)) [
        | inl nothing ↦ rw (inside, nothing) tt
        | inr (eol, there) ↦
            let behind = found_behind crlf pos fields there in
            rw (inside, there)
              (Ends->>= (substr pos (some (eol - pos)) fields) _
                (substr-Ends pos (some (eol - pos)) fields)
                (λ line. Ends->>= (read_line line) _ (read_line-Ends line) (λ entry.
                  parse_fields_loop-Ends rounds fields (eol + 2) _
                    (omega (arith, behind, ltb→lt pos (length fields) inside)))))
      ]
    ]

-- On every text, `parse_fields` comes to an end by itself.
pub parse_fields-Ends : (fields : Bytes) → Ends (parse_fields fields)
unfolding parse_fields
parse_fields-Ends fields = parse_fields_loop-Ends (length fields + 1) fields 0 [] (omega arith)
