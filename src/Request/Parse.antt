-- ===== src/Request/Parse.antt =====
-- `parse_header` of Request.cpp.
use cndl.Base.{
  ℕ, ◌+◌, ◌-◌, ◌*◌, ◌%◌, ◌^◌, Bool, ◌&&◌, List, [], ◌∷◌, Bytes, codes, length, take, drop, leb, ltb,
  str_eq, if◌then◌else◌, Option, none, some, Result, ok, err, ◌>>=◌, error, substr, find_where,
  index_where, index_of, is_char,
}
use cndl.Response.Fields.{str_lt}
use cndl.Request.Url.{url_unescape}
use cndl.Request.Fields.{
  FieldVal, word, kv_pair, FieldMap, extract_field_vals, bad_line, crlf, parse_fields,
}
use cndl.Request.Types.{Header}

-- `insert_or_assign` of a `std::map`, whose entries are in the order of their keys.
unfoldable pub insert_or_assign : Bytes → Bytes → List (Bytes × Bytes) → List (Bytes × Bytes)
insert_or_assign key value [] = (key, value) ∷ []
insert_or_assign key value ((k, v) ∷ entries) =
    if str_eq key k
    then (key, value) ∷ entries
    else if str_lt key k
    then (key, value) ∷ ((k, v) ∷ entries)
    else (k, v) ∷ insert_or_assign key value entries

-- `find` of the fields. Of several fields of one name a `std::unordered_multimap` may give any: here it
-- is the one that was put in first.
unfoldable pub find_field : Bytes → FieldMap → Option Bytes
find_field key [] = none
find_field key ((k, v) ∷ fields) = if str_eq key k then some v else find_field key fields

abbrev pub is_digit : ℕ → Bool
is_digit c = leb b'0' c && leb c b'9'

-- The number that the digits at the front of a text go on with.
unfoldable pub digits_after : ℕ → Bytes → ℕ
digits_after n [] = n
digits_after n (c ∷ text) = if is_digit c then digits_after (n * 10 + (c - b'0')) text else n

-- `std::from_chars` on a `std::size_t` that is 0: `result_out_of_range` leaves it.
unfoldable pub read_size : Bytes → Result ℕ
read_size [] = err (error 400 (codes "invalid content-length"))
read_size (c ∷ text) =
    let n = digits_after 0 (c ∷ text) in
    if is_digit c
    then (if ltb n (2 ^ 64) then ok n else ok 0)
    else err (error 400 (codes "invalid content-length"))

abbrev pub length_of_field : Option Bytes → Result ℕ
length_of_field none = ok 0
length_of_field (some text) = read_size text

unfoldable pub content_length_of : FieldMap → Result ℕ
content_length_of fields = length_of_field (find_field (codes "content-length") fields)

-- The cookies of one field.
abbrev pub assign_cookies : List FieldVal → List (Bytes × Bytes) → List (Bytes × Bytes)
assign_cookies [] cookies = cookies
assign_cookies (word text ∷ vals) cookies = assign_cookies vals cookies
assign_cookies (kv_pair key value ∷ vals) cookies =
    assign_cookies vals (insert_or_assign key value cookies)

abbrev pub cookies_of_field : Bytes → Bytes → List (Bytes × Bytes) → Result (List (Bytes × Bytes))
cookies_of_field k v cookies =
    if str_eq (codes "cookie") k
    then (do extracted ← extract_field_vals v (codes ";,"); ok (assign_cookies extracted cookies))
    else ok cookies

-- The loop over `equal_range("cookie")`, whose order the map leaves open: here it is the one in which the
-- fields were put in.
unfoldable pub cookies_of : FieldMap → List (Bytes × Bytes) → Result (List (Bytes × Bytes))
cookies_of [] cookies = ok cookies
cookies_of ((k, v) ∷ fields) cookies = do
  assigned ← cookies_of_field k v cookies
  cookies_of fields assigned

-- `url_args`: the keys and values are unescaped once more.
unfoldable pub unescape_args : List FieldVal → Result FieldMap
unescape_args [] = ok []
unescape_args (word text ∷ vals) = do
  key ← url_unescape text
  args ← unescape_args vals
  ok ((key, []) ∷ args)
unescape_args (kv_pair k v ∷ vals) = do
  key ← url_unescape k
  value ← url_unescape v
  args ← unescape_args vals
  ok ((key, value) ∷ args)

-- The text up to a character, or all of it.
abbrev pub before_char : ℕ → Bytes → Bytes
before_char c text = elim (index_where (is_char c) text) [ none ↦ text | some i ↦ take i text ]

unfoldable pub url_args_of : Bytes → Result FieldMap
url_args_of raw_url = elim (index_where (is_char b'?') raw_url) [
  | none ↦ ok []
  | some i ↦
      if ltb (i + 1) (length raw_url)
      then (do
        vals ← extract_field_vals (before_char b'#' (drop (i + 1) raw_url)) (codes "&")
        unescape_args vals)
      else ok []
]

-- `first_line_end-URL_end-1` in `size_t`.
abbrev pub version_size : ℕ → ℕ → ℕ
version_size first_line_end url_end = (first_line_end + 2 ^ 64 - (url_end + 1)) % 2 ^ 64

-- The header, once the ends of the first line, the method and the URL are known.
unfoldable pub header_of : Bytes → ℕ → ℕ → ℕ → Result Header
header_of request first_line_end method_end url_end = do
  let raw_url = take (url_end - method_end - 1) (drop (method_end + 1) request)
  url ← url_unescape raw_url
  version ← substr (url_end + 1) (some (version_size first_line_end url_end)) request
  url_args ← url_args_of raw_url
  rest ← substr (first_line_end + 2) none request
  fields ← parse_fields rest
  content_length ← content_length_of fields
  cookies ← cookies_of fields []
  ok (record {
    method = take method_end request;
    resource = before_char b'?' url;
    url = url;
    version = version;
    cookies = cookies;
    fields = fields;
    url_args = url_args;
    body_args = [];
    content_length = content_length;
  })

unfoldable pub parse_header : Bytes → Result Header
parse_header request = elim (index_of crlf request) [
  | none ↦ err bad_line
  | some first_line_end ↦ elim (index_where (is_char b' ') request) [
    | none ↦ err bad_line
    | some method_end ↦ elim (find_where (is_char b' ') (method_end + 1) request) [
      | none ↦ err bad_line
      | some url_end ↦ header_of request first_line_end method_end url_end
    ]
  ]
]
