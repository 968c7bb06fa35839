-- ===== src/Request/Plain.antt =====
-- A request whose target and fields need no further reading.
use cndl.Base.{
  ℕ, ◌+◌, ◌-◌, ◌*◌, ◌^◌, ◌<◌, ◌≡◌, refl, sym, ap, ◌∙◌, ◌⊎◌, inl, inr, List, [], ◌∷◌, ◌++◌, Bytes,
  codes, str_eq, true, false, length, length-append, All, ok, is_char, index_where-eq-none, lt→ltb,
  arith,
}
use cndl.Request.Url.{url_unescape}
use cndl.Request.Unescape.{url_unescape-eq-reference, unescape-eq_self}
use cndl.Request.Reference.{mark_alone}
use cndl.Request.Fields.{crlf}
use cndl.Request.Lines.{IsLine}
use cndl.Request.Headers.{IsField, written, small_letters, lowered, SameFields}
use cndl.Request.Parse.{
  before_char, find_field, digits_after, read_size, content_length_of, cookies_of, url_args_of,
  parse_header,
}
use cndl.Request.RequestLine.{IsWord, request_line, parse_header-written}
use cndl.Response.Decimal.{
  decimal, IsDigit, number_after, read_decimal, read_decimal-decimal, decimal-AreDigits,
  filled-decimal,
}

-- A target without an escape and without arguments.
abbrev pub IsPlain : Bytes → Type 0
IsPlain = All λ x. (is_char b'%' x ≡ false) × (is_char b'?' x ≡ false)

-- A field whose name in lower case is another one.
abbrev pub IsNot : Bytes → Bytes × Bytes → Type 0
IsNot name (n, v) = str_eq name (small_letters n) ≡ false

-- The content length of a request: the number of its one field of that name, or 0 without one.
abbrev pub TellsLength : List (Bytes × Bytes) → ℕ → Type 0
TellsLength [] n = n ≡ 0
TellsLength ((name, value) ∷ fields) n =
    (IsNot (codes "content-length") (name, value) × TellsLength fields n)
    ⊎ ((str_eq (codes "content-length") (small_letters name) ≡ true)
        × (value ≡ decimal n)
        × All (IsNot (codes "content-length")) fields)

no_escape : (s : Bytes) → IsPlain s → All (λ x. is_char b'%' x ≡ false) s
no_escape [] h = tt
no_escape (x ∷ s) h = (h.0.0, no_escape s h.1)

no_query : (s : Bytes) → IsPlain s → All (λ x. is_char b'?' x ≡ false) s
no_query [] h = tt
no_query (x ∷ s) h = (h.0.1, no_query s h.1)

mark_alone-plain : (s : Bytes) → IsPlain s → mark_alone s ≡ false
mark_alone-plain [] h = refl
mark_alone-plain (x ∷ []) h = h.0.0
mark_alone-plain (x ∷ y ∷ s) h = refl

url_unescape-plain : (s : Bytes) → length s < 2 ^ 64 → IsPlain s → url_unescape s ≡ ok s
url_unescape-plain s short h =
    url_unescape-eq-reference s short
    ∙ rw (mark_alone-plain s h) (unescape-eq_self s (no_escape s h))

url_args_of-plain : (s : Bytes) → IsPlain s → url_args_of s ≡ ok []
unfolding url_args_of
url_args_of-plain s h = rw (index_where-eq-none (is_char b'?') s (no_query s h), url_args_of) refl

before_char-plain : (s : Bytes) → IsPlain s → before_char b'?' s ≡ s
before_char-plain s h = rw (index_where-eq-none (is_char b'?') s (no_query s h), before_char) refl

cookies_of-plain :
    (fields : List (Bytes × Bytes))
    → All (IsNot (codes "cookie")) fields
    → cookies_of (lowered fields) [] ≡ ok []
unfolding cookies_of
cookies_of-plain [] h = refl
cookies_of-plain ((name, value) ∷ fields) h = rw (h.0, cookies_of-plain fields h.1)

digits_after-AreDigits :
    (n : ℕ) (ds : Bytes) → All IsDigit ds → digits_after n ds ≡ number_after n ds
unfolding digits_after number_after
digits_after-AreDigits n [] h = refl
digits_after-AreDigits n (d ∷ ds) h =
    let k = h.0 in ground (arith, digits_after-AreDigits (n * 10 + (d - b'0')) ds h.1)

read_size-digits :
    (ds : Bytes) (n : ℕ)
    → 0 < length ds
    → All IsDigit ds
    → digits_after 0 ds ≡ n
    → n < 2 ^ 64
    → read_size ds ≡ ok n
unfolding read_size
read_size-digits [] n filled h e fits = absurd (omega arith)
read_size-digits (d ∷ ds) n filled h e fits =
    let k = h.0 in rw (e, lt→ltb n (2 ^ 64) fits) (ground arith)

read_size-decimal : (n : ℕ) → n < 2 ^ 64 → read_size (decimal n) ≡ ok n
read_size-decimal n fits =
    let ds = decimal-AreDigits n in
    let value : digits_after 0 (decimal n) ≡ n =
      digits_after-AreDigits 0 (decimal n) ds ∙ (unfold read_decimal in read_decimal-decimal n) in
    read_size-digits (decimal n) n (filled-decimal n) ds value fits

content_length_of-TellsLength :
    (fields : List (Bytes × Bytes)) (n : ℕ)
    → TellsLength fields n
    → n < 2 ^ 64
    → content_length_of (lowered fields) ≡ ok n
unfolding content_length_of find_field
content_length_of-TellsLength [] n h fits = ap ok (sym h)
content_length_of-TellsLength ((name, value) ∷ fields) n (inl (other, rest)) fits =
    rw other (content_length_of-TellsLength fields n rest fits)
content_length_of-TellsLength ((name, value) ∷ fields) n (inr (same, number, others)) fits =
    rw (same, number) (read_size-decimal n fits)

module _ (method target version : Bytes) (fields : List (Bytes × Bytes)) (n : ℕ) where
  -- A request line whose target has no escape and no query, and fields as `parse_fields` reads them,
  -- no cookie among them and at most one content length, which is a number, in fewer than 2^32 - 1 bytes
  -- in all: `parse_header` reads
  -- the method, the target as it is, the version and the number, or 0 if there is none, and the map
  -- has every field as often as it was written and nothing else.
  pub parse_header-plain :
      IsWord method
      → IsWord target
      → IsLine (request_line method target version)
      → length (request_line method target version ++ (crlf ++ written fields)) < 2 ^ 32 - 1
      → All IsField fields
      → IsPlain target
      → TellsLength fields n
      → n < 2 ^ 64
      → All (IsNot (codes "cookie")) fields
      → (entries : List (Bytes × Bytes)) × (parse_header
            (request_line method target version ++ (crlf ++ written fields))
          ≡ ok (record {
            method = method;
            resource = target;
            url = target;
            version = version;
            cookies = [];
            fields = entries;
            url_args = [];
            body_args = [];
            content_length = n;
          }))
        × SameFields entries (lowered fields)
  parse_header-plain one two line short readable plain tells fits no_cookie =
      let whole = length-append (request_line method target version) (crlf ++ written fields) in
      let outer = length-append method (b' ' ∷ (target ++ (b' ' ∷ version))) in
      let inner = length-append target (b' ' ∷ version) in
      (
        lowered fields,
        parse_header-written method target version fields one two line (omega arith) readable
            ∙ rw
                (
                  url_unescape-plain target (omega arith) plain,
                  url_args_of-plain target plain,
                  content_length_of-TellsLength fields n tells fits,
                  cookies_of-plain fields no_cookie,
                  before_char-plain target plain,
                )
                refl,
        λ name value. refl,
      )
