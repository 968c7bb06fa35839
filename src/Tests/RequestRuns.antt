-- ===== src/Tests/RequestRuns.antt =====
-- Runs of the request parser.
use cndl.Base.{
  codes, ok, err, out_of_range, undefined, [], ◌∷◌, ◌≡◌, refl, substr, find_where, find_text,
}
use cndl.Request.Url.{url_unescape, unescape_loop, read_escape, hex_digit, bad_escape}
use cndl.Request.Fields.{
  word, kv_pair, to_lower, remove_quots, read_field, trim_right, extract_loop, extract_field_vals,
  read_value, split_line, read_line, parse_fields_loop, parse_fields, bad_field,
}

escapes :
    (url_unescape (codes "a%20b%2f") ≡ ok (codes "a b/"))
    × (url_unescape (codes "%4") ≡ err undefined)
    × (url_unescape (codes "ab%") ≡ err bad_escape)
    × (url_unescape (codes "%") ≡ err undefined)
unfolding url_unescape unescape_loop read_escape hex_digit substr find_where
escapes = (refl, refl, refl, refl)

field_vals :
    (extract_field_vals (codes "a=1; b=\"x y\" ;c") (codes ";,")
      ≡ ok (
          kv_pair (codes "a") (codes "1")
          ∷ kv_pair (codes "b") (codes "x y")
          ∷ word (codes "c")
          ∷ []))
    × (extract_field_vals (codes "a;;b") (codes ";,") ≡ ok (word (codes "a") ∷ []))
    × (extract_field_vals (codes "a;") (codes ";,") ≡ err out_of_range)
unfolding extract_field_vals extract_loop trim_right read_field remove_quots url_unescape
    unescape_loop read_escape hex_digit substr find_where
field_vals = (refl, refl, refl)

header_fields :
    (parse_fields (codes "Host:  example.org \r\nX-A: 1\r\n")
      ≡ ok ((codes "host", codes "example.org") ∷ (codes "x-a", codes "1") ∷ []))
    × (parse_fields (codes ": x\r\n") ≡ err bad_field)
unfolding parse_fields parse_fields_loop read_line split_line read_value to_lower url_unescape
    unescape_loop read_escape hex_digit substr find_where find_text
header_fields = (refl, refl)
