-- ===== src/Request/RequestLine.antt =====
-- The request line and the fields of a request as a client writes them.
use cndl.Base.{
  ℕ, ◌+◌, ◌-◌, ◌^◌, ◌<◌, ◌≡◌, refl, ap, ◌∙◌, List, [], ◌∷◌, ◌++◌, append_assoc, Bytes, length,
  length-append, take, drop, drop-add, take-append_length, drop-append_length, All, false, some,
  none, Result, ok, ◌>>=◌, substr, find_where, index_where, index_where-append, is_char, ge→ltb,
  arith,
}
use cndl.Request.Url.{url_unescape}
use cndl.Request.Fields.{crlf}
use cndl.Request.Lines.{IsLine, index_of-crlf}
use cndl.Request.Headers.{IsField, written, lowered, parse_fields-lowered}
use cndl.Request.Types.{Header}
use cndl.Request.Parse.{
  before_char, url_args_of, content_length_of, cookies_of, version_size, header_of, parse_header,
}

abbrev pub IsWord : Bytes → Type 0
IsWord = All λ x. is_char b' ' x ≡ false

abbrev pub request_line : Bytes → Bytes → Bytes → Bytes
request_line method target version = method ++ (b' ' ∷ (target ++ (b' ' ∷ version)))

-- The header that the parts of a request stand for.
abbrev pub header_from : Bytes → Bytes → Bytes → List (Bytes × Bytes) → Result Header
header_from method target version fields = do
  url ← url_unescape target
  url_args ← url_args_of target
  content_length ← content_length_of fields
  cookies ← cookies_of fields []
  ok (record {
    method = method;
    resource = before_char b'?' url;
    url = url;
    version = version;
    cookies = cookies;
    fields = fields;
    url_args = url_args;
    body_args = [];
    content_length = content_length;
  })

module _ (method target version rest : Bytes) (one : IsWord method) (two : IsWord target) where
  abbrev request : Bytes
  request = request_line method target version ++ (crlf ++ rest)

  abbrev behind_target : Bytes
  behind_target = version ++ (crlf ++ rest)

  abbrev behind_method : Bytes
  behind_method = target ++ (b' ' ∷ behind_target)

  shape : request ≡ method ++ (b' ' ∷ behind_method)
  shape =
      append_assoc method (b' ' ∷ (target ++ (b' ' ∷ version))) (crlf ++ rest)
      ∙ ap (λ t. method ++ (b' ' ∷ t)) (append_assoc target (b' ' ∷ version) (crlf ++ rest))

  method_end : index_where (is_char b' ') request ≡ some (length method)
  method_end =
      ap (index_where (is_char b' ')) shape
      ∙ index_where-append (is_char b' ') method (b' ' ∷ behind_method) one refl
      ∙ ap some (omega arith)

  from_target : drop (length method + 1) request ≡ behind_method
  from_target =
      ap (drop (length method + 1)) shape
      ∙ drop-add 1 (length method) (method ++ (b' ' ∷ behind_method))
      ∙ ap (drop 1) (drop-append_length (length method) method (b' ' ∷ behind_method) refl)

  abbrev url_end : ℕ
  url_end = length method + 1 + length target

  find_url_end : find_where (is_char b' ') (length method + 1) request ≡ some url_end
  unfolding find_where
  find_url_end =
      rw (from_target, index_where-append (is_char b' ') target (b' ' ∷ behind_target) two refl)
        (ap some (omega arith))

  from_version : drop (url_end + 1) request ≡ behind_target
  from_version =
      let split : url_end + 1 ≡ length method + 1 + (length target + 1) = omega arith in
      ap (λ n. drop n request) split
      ∙ drop-add (length target + 1) (length method + 1) request
      ∙ ap (drop (length target + 1)) from_target
      ∙ drop-add 1 (length target) behind_method
      ∙ ap (drop 1) (drop-append_length (length target) target (b' ' ∷ behind_target) refl)

  length-line : length (request_line method target version) ≡ url_end + 1 + length version
  length-line =
      let outer = length-append method (b' ' ∷ (target ++ (b' ' ∷ version))) in
      let inner = length-append target (b' ' ∷ version) in omega arith

  module _ (short : length (request_line method target version) < 2 ^ 64) where
    version_size-line :
        version_size (length (request_line method target version)) url_end ≡ length version
    version_size-line = let l = length-line in omega arith

    read_version :
        substr
          (url_end + 1)
          (some (version_size (length (request_line method target version)) url_end))
          request
        ≡ ok version
    unfolding substr
    read_version =
        let all = length-append (request_line method target version) (crlf ++ rest) in
        let l = length-line in
        rw (
          version_size-line,
          ge→ltb (length request) (url_end + 1) (omega arith),
          from_version,
          take-append_length (length version) version (crlf ++ rest) refl,
        )

  read_rest : substr (length (request_line method target version) + 2) none request ≡ ok rest
  unfolding substr
  read_rest =
      let line = request_line method target version in
      let all = length-append line (crlf ++ rest) in
      rw (
        ge→ltb (length request) (length line + 2) (omega arith),
        drop-add 2 (length line) request,
        drop-append_length (length line) line (crlf ++ rest) refl,
      )

  read_target : take (url_end - length method - 1) (drop (length method + 1) request) ≡ target
  read_target =
      let count : url_end - length method - 1 ≡ length target = omega arith in
      rw (count, from_target)
        (take-append_length (length target) target (b' ' ∷ behind_target) refl)

  read_method : take (length method) request ≡ method
  read_method =
      ap (take (length method)) shape
      ∙ take-append_length (length method) method (b' ' ∷ behind_method) refl

  found_ends :
      IsLine (request_line method target version)
      → parse_header request
        ≡ header_of request (length (request_line method target version)) (length method) url_end
  unfolding parse_header
  found_ends line = rw (
    index_of-crlf (request_line method target version) rest line,
    method_end,
    find_url_end,
    parse_header,
  )

header_of-parts :
    (method target version : Bytes) (fields : List (Bytes × Bytes)) (one : IsWord method)
    (two : IsWord target)
    → length (request_line method target version) < 2 ^ 64
    → All IsField fields
    → header_of
        (request_line method target version ++ (crlf ++ written fields))
        (length (request_line method target version))
        (length method)
        (length method + 1 + length target)
      ≡ header_from method target version (lowered fields)
unfolding header_of
header_of-parts method target version fields one two short readable =
    let rest = written fields in
    rw (
      read_target method target version rest one two,
      read_version method target version rest one two short,
      read_rest method target version rest one two,
      parse_fields-lowered fields readable,
      read_method method target version rest one two,
    )

-- The request line of a method, a target with no space between, and a version, and behind it fields
-- as `parse_fields` reads them: `parse_header` gives the header that these parts stand for, or the
-- exception of the first part that cannot be read.
pub parse_header-written :
    (method target version : Bytes) (fields : List (Bytes × Bytes))
    → IsWord method
    → IsWord target
    → IsLine (request_line method target version)
    → length (request_line method target version) < 2 ^ 64
    → All IsField fields
    → parse_header (request_line method target version ++ (crlf ++ written fields))
      ≡ header_from method target version (lowered fields)
parse_header-written method target version fields one two line short readable =
    let rest = written fields in
    found_ends method target version rest one two line
    ∙ header_of-parts method target version fields one two short readable
