-- ===== src/Tests/ResponseCases.antt =====
-- The theorems on the responses at concrete ones.
use cndl.Base.{
  ℕ, ◌≡◌, refl, List, true, false, [], ◌++◌, Bytes, codes, some, none, ok, arith, substr,
  find_where,
}
use cndl.Request.Url.{url_unescape, unescape_loop, read_escape}
use cndl.Request.Fields.{crlf, parse_fields, to_lower}
use cndl.Request.Headers.{lowered, SameFields}
use cndl.Response.Types.{
  Response, with_body, from_error, CookieAttributes, session, find_reason, reason_of, serialize,
}
use cndl.Response.Serialize.{length_field, status_line}
use cndl.Response.Fields.{has}
use cndl.Response.Decimal.{decimal, digits}
use cndl.Response.Received.{serialize-parse_fields}

abbrev unknown_code : Response
unknown_code = from_error 599 (codes "no such code") none

abbrev page : Response
page = with_body (codes "<p>hi</p>")

abbrev attributes : CookieAttributes ℕ
attributes = record {
  lifetime = session;
  http_only = true;
  secure = false;
  path = some (codes "/");
  domain = none;
}

abbrev no_date : ℕ → Bytes
no_date t = []

serialize-parse_fields_example :
    (block : Bytes) × (serialize page
      ≡ ok (status_line page (codes "OK") ++ block ++ crlf ++ codes "<p>hi</p>"))
    × (entries : List (Bytes × Bytes)) × (parse_fields block ≡ ok entries)
    × SameFields entries (lowered (page.fields ++ length_field page.message_body page.fields))
unfolding reason_of find_reason url_unescape unescape_loop read_escape to_lower substr find_where
    has decimal digits
serialize-parse_fields_example =
    serialize-parse_fields page (codes "OK") refl (omega arith)
      ((omega arith, ground arith, (omega arith, refl, refl), ground arith, refl, refl), tt)
      (omega arith)
