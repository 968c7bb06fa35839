-- ===== src/Request/HeaderRounds.antt =====
-- `parse_header` ends before the rounds of its loops are used up.
use cndl.Base.{
  ℕ, ◌<◌, ◌+◌, ◌-◌, ◌^◌, inl, inr, List, [], ◌∷◌, Bytes, codes, length, take, drop, ltb, str_eq,
  none, some, substr, find_where, index_where, index_of, is_char, Option-cases,
}
use cndl.Request.Url.{url_unescape}
use cndl.Request.Fields.{FieldVal, word, kv_pair, FieldMap, extract_field_vals, crlf, parse_fields}
use cndl.Request.Rounds.{
  Ends, Ends->>=, Ends-if, substr-Ends, url_unescape-Ends, extract_field_vals-Ends,
  parse_fields-Ends,
}
use cndl.Request.Parse.{
  find_field, is_digit, digits_after, read_size, content_length_of, cookies_of_field, cookies_of,
  unescape_args, before_char, url_args_of, version_size, header_of, parse_header,
}

unescape_args-Ends : (vals : List FieldVal) → Ends (unescape_args vals)
unfolding unescape_args
unescape_args-Ends [] = tt
unescape_args-Ends (word text ∷ vals) =
    Ends->>= (url_unescape text) _ (url_unescape-Ends text)
      (λ key. Ends->>= (unescape_args vals) _ (unescape_args-Ends vals) (λ args. tt))
unescape_args-Ends (kv_pair k v ∷ vals) = Ends->>= (url_unescape k) _ (url_unescape-Ends k) (λ key.
    Ends->>= (url_unescape v) _ (url_unescape-Ends v)
      (λ value. Ends->>= (unescape_args vals) _ (unescape_args-Ends vals) (λ args. tt)))

url_args_of-Ends : (raw_url : Bytes) → Ends (url_args_of raw_url)
unfolding url_args_of
url_args_of-Ends raw_url = elim (Option-cases (index_where (is_char b'?') raw_url)) [
  | inl nothing ↦ rw (nothing, url_args_of) tt
  | inr (i, there) ↦
      rw (there, url_args_of)
        (Ends-if (ltb (i + 1) (length raw_url)) _ _
          (Ends->>= (extract_field_vals (before_char b'#' (drop (i + 1) raw_url)) (codes "&")) _
            (extract_field_vals-Ends _ _) (λ vals. unescape_args-Ends vals))
          tt)
]

read_size-Ends : (text : Bytes) → Ends (read_size text)
unfolding read_size
read_size-Ends [] = tt
read_size-Ends (c ∷ text) =
    Ends-if (is_digit c) _ _ (Ends-if (ltb (digits_after 0 (c ∷ text)) (2 ^ 64)) _ _ tt tt) tt

content_length_of-Ends : (fields : FieldMap) → Ends (content_length_of fields)
unfolding content_length_of
content_length_of-Ends fields = elim (Option-cases (find_field (codes "content-length") fields)) [
  | inl nothing ↦ rw nothing tt
  | inr (text, there) ↦ rw there (read_size-Ends text)
]

cookies_of-Ends :
    (fields : FieldMap) (cookies : List (Bytes × Bytes)) → Ends (cookies_of fields cookies)
unfolding cookies_of
cookies_of-Ends [] cookies = tt
cookies_of-Ends ((k, v) ∷ fields) cookies =
    Ends->>= (cookies_of_field k v cookies) _
      (Ends-if (str_eq (codes "cookie") k) _ _
        (Ends->>= (extract_field_vals v (codes ";,")) _ (extract_field_vals-Ends v (codes ";,"))
          (λ vals. tt))
        tt)
      (λ assigned. cookies_of-Ends fields assigned)

header_of-Ends :
    (request : Bytes) (line_end method_end url_end : ℕ)
    → Ends (header_of request line_end method_end url_end)
unfolding header_of
header_of-Ends request line_end method_end url_end =
    let raw_url = take (url_end - method_end - 1) (drop (method_end + 1) request) in
    Ends->>= (url_unescape raw_url) _ (url_unescape-Ends raw_url) (λ url.
      Ends->>= (substr (url_end + 1) (some (version_size line_end url_end)) request) _
        (substr-Ends _ _ _)
        (λ version. Ends->>= (url_args_of raw_url) _ (url_args_of-Ends raw_url) (λ url_args.
          Ends->>= (substr (line_end + 2) none request) _ (substr-Ends _ _ _) (λ rest.
            Ends->>= (parse_fields rest) _ (parse_fields-Ends rest) (λ fields.
              Ends->>= (content_length_of fields) _ (content_length_of-Ends fields)
                (λ content_length.
                  Ends->>= (cookies_of fields []) _ (cookies_of-Ends fields [])
                    (λ cookies. tt)))))))

pub header-Ends : (request : Bytes) → Ends (parse_header request)
unfolding parse_header
header-Ends request = elim (Option-cases (index_of crlf request)) [
  | inl nothing ↦ rw (nothing, parse_header) tt
  | inr (line_end, line) ↦ elim (Option-cases (index_where (is_char b' ') request)) [
    | inl nothing ↦ rw (line, nothing, parse_header) tt
    | inr (method_end, one) ↦
        elim (Option-cases (find_where (is_char b' ') (method_end + 1) request)) [
          | inl nothing ↦ rw (line, one, nothing, parse_header) tt
          | inr (url_end, two) ↦
              rw (line, one, two, parse_header) (header_of-Ends request line_end method_end url_end)
        ]
  ]
]

-- On every text of fewer than 2^32 - 1 bytes, whose positions fit the `unsigned int`s of the code,
-- `parse_header` comes to an end by itself.
pub parse_header-Ends :
    (request : Bytes) → length request < 2 ^ 32 - 1 → Ends (parse_header request)
parse_header-Ends request fits = header-Ends request
