-- ===== src/Tests/RequestCases.antt =====
-- The theorems on the request parser and on base64 at concrete texts.
use cndl.Base.{
  ◌++◌, ◌≡◌, refl, inl, inr, List, [], ◌∷◌, Bytes, codes, ok, arith, substr, find_where,
}
use cndl.Request.Url.{url_unescape, unescape_loop, read_escape}
use cndl.Request.Unescape.{url_unescape-eq-reference}
use cndl.Request.Reference.{reference}
use cndl.Request.Fields.{to_lower}
use cndl.Request.Headers.{IsField, written, lowered, SameFields}
use cndl.Request.Rounds.{Ends}
use cndl.Request.Fields.{crlf}
use cndl.Request.Parse.{parse_header}
use cndl.Request.RequestLine.{request_line}
use cndl.Request.Plain.{parse_header-plain}
use cndl.Response.Decimal.{decimal, digits}
use cndl.Response.Received.{length-IsField}
use cndl.Request.HeaderRounds.{parse_header-Ends}
use cndl.Request.Multipart.{read_multipart_body}
use cndl.Request.Parts.{written_parts, read_parts, read_multipart_body-written}
use cndl.Request.PartRounds.{read_multipart_body-Ends}
use cndl.Base64.Codec.{base64_encode, base64_decode}
use cndl.Base64.Reference.{rfc_base64, base64_encode-eq-rfc_base64}
use cndl.Base64.RoundTrip.{base64_decode-base64_encode}

abbrev host : Bytes × Bytes
host = (codes "Host", codes "a:80")

url_unescape-eq-reference_example : url_unescape (codes "a%2fb%") ≡ reference (codes "a%2fb%")
url_unescape-eq-reference_example = url_unescape-eq-reference (codes "a%2fb%") (omega arith)

host-IsField : IsField host
unfolding url_unescape unescape_loop read_escape to_lower substr find_where
host-IsField = (omega arith, ground arith, (omega arith, refl, refl), ground arith, refl, refl)

base64_decode-base64_encode_example : base64_decode (base64_encode (codes "ab")) ≡ codes "ab"
base64_decode-base64_encode_example = base64_decode-base64_encode (codes "ab") (ground arith)

base64_encode-eq-rfc_base64_example : base64_encode (codes "ab") ≡ rfc_base64 (codes "ab")
base64_encode-eq-rfc_base64_example = base64_encode-eq-rfc_base64 (codes "ab") (ground arith)

abbrev size_field : Bytes × Bytes
size_field = (codes "Content-Length", decimal 12)

size_field-IsField : IsField size_field
size_field-IsField = length-IsField 12 (omega arith)

parse_header-plain_example :
    (entries : List (Bytes × Bytes)) × (parse_header (
        request_line (codes "POST") (codes "/a/b") (codes "HTTP/1.1")
        ++ (crlf ++ written (host ∷ size_field ∷ [])))
      ≡ ok (record {
        method = codes "POST";
        resource = codes "/a/b";
        url = codes "/a/b";
        version = codes "HTTP/1.1";
        cookies = [];
        fields = entries;
        url_args = [];
        body_args = [];
        content_length = 12;
      }))
    × SameFields entries (lowered (host ∷ size_field ∷ []))
unfolding decimal digits
parse_header-plain_example =
    parse_header-plain (codes "POST") (codes "/a/b") (codes "HTTP/1.1") (host ∷ size_field ∷ []) 12
      (ground arith) (ground arith) (ground arith) (omega arith)
      (host-IsField, (size_field-IsField, tt)) (ground arith) (inl (refl, inr (refl, refl, tt)))
      (omega arith) (refl, (refl, tt))

parse_header-Ends_example : Ends (parse_header (codes "GET /\r\n"))
parse_header-Ends_example = parse_header-Ends (codes "GET /\r\n") (omega arith)

abbrev a_part : Bytes
a_part = codes "Content-Disposition: form-data; name=\"a\"\r\n\r\nhello"

read_multipart_body-written_example :
    read_multipart_body
      (codes "--" ++ written_parts (codes "XX") (a_part ∷ []) (codes "\r\n"))
      (codes "XX")
    ≡ read_parts (a_part ∷ [])
read_multipart_body-written_example =
    read_multipart_body-written (codes "XX") (codes "--") (codes "\r\n") (a_part ∷ []) refl
      (refl, tt)

read_multipart_body-Ends_example : Ends (read_multipart_body (codes "--XX--") (codes "XX"))
read_multipart_body-Ends_example =
    read_multipart_body-Ends (codes "--XX--") (codes "XX") (omega arith)
