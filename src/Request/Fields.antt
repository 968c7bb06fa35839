-- ===== src/Request/Fields.antt =====
-- `to_lower`, `extractFieldVals` and `parse_fields` of Request.cpp.
use cndl.Base.{
  ℕ, zero, suc, ◌+◌, ◌-◌, Bool, true, false, ◌&&◌, List, [], ◌∷◌, ◌++◌, map, Bytes, codes, length,
  get_or, take, drop, leb, ltb, ◌==◌, if◌then◌else◌, none, some, Result, ok, err, ◌>>=◌, error,
  out_of_range, stuck, substr, find_where, find_text, index_where, last_index_where, one_of,
  none_of, is_char, Exception,
}
use cndl.Request.Url.{up_to, size_less_two, url_unescape}

-- `FieldVal`, a variant of a text and a pair of texts.
pub data FieldVal : Type 0 where
  word : Bytes → FieldVal
  kv_pair : Bytes → Bytes → FieldVal

-- `FieldMap`: the pairs in the order in which they were put in.
abbrev pub FieldMap : Type 0
FieldMap = List (Bytes × Bytes)

abbrev pub spaces : Bytes
spaces = codes " \t"

abbrev pub illegal_chars : Bytes
illegal_chars = codes " \t\r\n"

-- `::tolower` in the C locale, on every character.
abbrev pub lower : ℕ → ℕ
lower c = if leb b'A' c && leb c b'Z' then c + 32 else c

unfoldable pub to_lower : Bytes → Bytes
to_lower = map lower

abbrev pub quote : ℕ
quote = b'"'

-- The lambda `remove_quots`.
unfoldable pub remove_quots : Bytes → Bytes
remove_quots v =
    if ltb 0 (length v) && get_or v 0 0 == quote && get_or v (length v - 1) 0 == quote
    then take (size_less_two v) (drop 1 v)
    else v

-- A chunk as a field: a pair at the first equals sign, and a word if there is none.
unfoldable pub read_field : Bytes → Result FieldVal
read_field chunk = elim (index_where (is_char b'=') chunk) [
  | some eq_sign ↦ (do
    key ← url_unescape (remove_quots (take eq_sign chunk))
    value ← url_unescape (remove_quots (drop (eq_sign + 1) chunk))
    ok (kv_pair key value))
  | none ↦ (do text ← url_unescape (remove_quots chunk); ok (word text))
]

abbrev pub is_nil : Bytes → Bool
is_nil [] = true
is_nil (x ∷ xs) = false

-- `chunk.substr(0, chunk.find_last_not_of(spaces)+1)`; `npos + 1` is 0.
unfoldable pub trim_right : Bytes → Bytes
trim_right chunk = elim (last_index_where (none_of spaces) chunk) [
  | some i ↦ take (i + 1) chunk
  | none ↦ []
]

-- The loop of `extractFieldVals`. Where only spaces are left `start` becomes `npos`, cut to 32
-- bits, and `substr` throws for a text that is shorter than that.
unfoldable pub extract_loop : ℕ → Bytes → Bytes → ℕ → List FieldVal → Result (List FieldVal)
extract_loop zero delimiters str start fields = err stuck
extract_loop (suc rounds) delimiters str start fields =
    elim (find_where (none_of spaces) start str) [
      | none ↦ err out_of_range
      | some begin ↦
          let end = find_where (one_of delimiters) begin str in
          do
            whole ← substr begin (up_to end begin) str
            let chunk = trim_right whole
            if is_nil whole then ok fields else if is_nil chunk then ok fields else (do
              field ← read_field chunk
              elim end [
                | none ↦ ok (fields ++ (field ∷ []))
                | some e ↦ extract_loop rounds delimiters str (e + 1) (fields ++ (field ∷ []))
              ])
    ]

-- Each round passes a character, so that one round for each and one more are enough.
unfoldable pub extract_field_vals : Bytes → Bytes → Result (List FieldVal)
extract_field_vals str delimiters =
    if is_nil str then ok [] else extract_loop (length str + 1) delimiters str 0 []

abbrev pub bad_line : Exception
bad_line = error 400 (codes "invalid Request-Line")

-- The value of a header line, from its first character that is legal to the last.
unfoldable pub read_value : Bytes → ℕ → Result Bytes
read_value line colon_idx = elim (find_where (none_of illegal_chars) (colon_idx + 1) line) [
  | none ↦ err bad_line
  | some begin ↦ elim (last_index_where (none_of illegal_chars) line) [
    | none ↦ err bad_line
    | some end ↦ if ltb end begin then err bad_line else substr begin (some (end - begin + 1)) line
  ]
]

abbrev pub bad_field : Exception
bad_field = error 400 (codes "invalid header field")

-- A line as a name and a value, before they are unescaped; the parts of the body of the loop in
-- `parse_fields`.
unfoldable pub split_line : Bytes → Result (Bytes × Bytes)
split_line line = elim (index_where (is_char b':') line) [
  | none ↦ err bad_field
  | some colon_idx ↦
      if colon_idx == 0
      then err bad_field
      else (let name = to_lower (take colon_idx line) in
          elim (index_where (one_of illegal_chars) name) [
            | some i ↦ err bad_line
            | none ↦ (do value ← read_value line colon_idx; ok (name, value))
          ])
]

unfoldable pub read_line : Bytes → Result (Bytes × Bytes)
read_line line = do
  (name, value) ← split_line line
  name' ← url_unescape name
  value' ← url_unescape value
  ok (name', value')

abbrev pub crlf : Bytes
crlf = codes "\r\n"

unfoldable pub parse_fields_loop : ℕ → Bytes → ℕ → FieldMap → Result FieldMap
parse_fields_loop zero fields pos fields_map = err stuck
parse_fields_loop (suc rounds) fields pos fields_map =
    let more : Result FieldMap = elim (find_text crlf pos fields) [
      | none ↦ ok fields_map
      | some eol ↦ (do
        line ← substr pos (some (eol - pos)) fields
        entry ← read_line line
        parse_fields_loop rounds fields (eol + 2) (fields_map ++ (entry ∷ [])))
    ] in
    if ltb pos (length fields) then more else ok fields_map

-- Each round passes a line end, so that one round for each character and one more are enough.
unfoldable pub parse_fields : Bytes → Result FieldMap
parse_fields fields = parse_fields_loop (length fields + 1) fields 0 []
