-- ===== src/Response/Types.antt =====
-- The response, how it is made, and what is written of it to the connection.
use cndl.Base.{
  ℤ, ℕ, ◌==◌, List, [], ◌∷◌, ◌++◌, Bytes, codes, str_eq, Bool, not, if◌then◌else◌, Option, none,
  some, length, Result, ok, err, out_of_range, ◌>>=◌,
}
use cndl.Response.Tables.{code2reason, extension_lookup_table}
use cndl.Response.Decimal.{decimal, to_string}
use cndl.Response.Fields.{Fields, emplace, erase, has}

pub record Response : Type 0 where
  pub version : Bytes
  pub status_code : ℕ
  pub reason_phrase : Bytes
  pub fields : Fields
  pub message_body : Option Bytes

-- `Response{}`
abbrev pub new_response : Response
new_response = record {
  version = codes "HTTP/1.1";
  status_code = 200;
  reason_phrase = [];
  fields = (codes "Content-Type", codes "text/html, charset=utf-8") ∷ [];
  message_body = none;
}

abbrev pub with_body : Bytes → Response
with_body body = record new_response { message_body = some body }

-- The constructor from an error of a code and a message. A generator that is not set is `none`.
abbrev pub from_error : ℕ → Bytes → Option (ℕ → Bytes → Bytes) → Response
from_error code what none = record (with_body what) { status_code = code }
from_error code what (some page) = record (with_body (page code what)) { status_code = code }

-- The lifetime of a cookie, with a type of calendar times.
pub data Lifetime (Tm : Type 0) : Type 0 where
  session : Lifetime Tm
  expires : Tm → Lifetime Tm
  max_age : ℤ → Lifetime Tm

pub record CookieAttributes (Tm : Type 0) : Type 0 where
  pub lifetime : Lifetime Tm
  pub http_only : Bool
  pub secure : Bool
  pub path : Option Bytes
  pub domain : Option Bytes

abbrev pub flag : Bool → Bytes → Bytes
flag set text = if set then text else []

abbrev pub optional : Bytes → Option Bytes → Bytes
optional key none = []
optional key (some text) = key ++ text

-- The calendar times and `mkdatestr`, which calls `strftime`.
module _ {Tm : Type 0} (mkdatestr : Tm → Bytes) where
  abbrev pub lifetime_text : Lifetime Tm → Bytes
  lifetime_text session = []
  lifetime_text (expires t) = codes "; Expires=" ++ mkdatestr t
  lifetime_text (max_age count) = codes "; Max-Age=" ++ (to_string count ++ codes "s")

  unfoldable pub cookie : Bytes → Bytes → CookieAttributes Tm → Bytes
  cookie name value attributes =
      name
      ++ codes "="
      ++ value
      ++ lifetime_text attributes.lifetime
      ++ flag attributes.secure (codes "; Secure")
      ++ flag attributes.http_only (codes "; HttpOnly")
      ++ optional (codes "; Path=") attributes.path
      ++ optional (codes "; Domain=") attributes.domain

  unfoldable pub set_cookie : Bytes → Bytes → CookieAttributes Tm → Response → Response
  set_cookie name value attributes r = record r {
    fields = emplace (codes "Set-Cookie") (cookie name value attributes) r.fields;
  }

unfoldable pub find_extension : Bytes → List (Bytes × Bytes) → Option Bytes
find_extension key [] = none
find_extension key ((extension, kind) ∷ table) =
    if str_eq key extension then some kind else find_extension key table

abbrev pub without_dot : Bytes → Bytes
without_dot [] = []
without_dot (c ∷ extension) = if c == b'.' then extension else c ∷ extension

abbrev pub or_plain : Option Bytes → Bytes
or_plain none = codes "text/plain"
or_plain (some kind) = kind

unfoldable pub content_type_lookup : Bytes → Bytes
content_type_lookup extension =
    or_plain (find_extension (without_dot extension) extension_lookup_table)

unfoldable pub set_content_type_from_extension : Bytes → Response → Response
set_content_type_from_extension extension r = record r {
  fields =
      emplace (codes "Content-Type") (content_type_lookup extension)
        (erase (codes "Content-Type") r.fields);
}

unfoldable pub find_reason : ℕ → List (ℕ × Bytes) → Option Bytes
find_reason code [] = none
find_reason code ((c, reason) ∷ table) = if code == c then some reason else find_reason code table

-- The reason phrase: `code2reason.at(status_code)` if none is set.
abbrev pub reason_for : Bytes → Option Bytes → Result Bytes
reason_for [] none = err out_of_range
reason_for [] (some reason) = ok reason
reason_for (c ∷ phrase) found = ok (c ∷ phrase)

unfoldable pub reason_of : Response → Result Bytes
reason_of r = reason_for r.reason_phrase (find_reason r.status_code code2reason)

unfoldable pub field_lines : Fields → Bytes
field_lines [] = []
field_lines ((name, value) ∷ fields) =
    name ++ codes ": " ++ value ++ codes "\r\n" ++ field_lines fields

-- The line that is added for a body with no length among the fields.
unfoldable pub length_line : Option Bytes → Fields → Bytes
length_line none fields = []
length_line (some body) fields =
    if not (has (codes "Content-Length") fields)
    then codes "Content-Length: " ++ decimal (length body) ++ codes "\r\n"
    else []

abbrev pub body_bytes : Option Bytes → Bytes
body_bytes none = []
body_bytes (some body) = body

unfoldable pub serialize : Response → Result Bytes
serialize r = do
  reason ← reason_of r
  ok (
      r.version
      ++ codes " "
      ++ decimal r.status_code
      ++ codes " "
      ++ reason
      ++ codes "\r\n"
      ++ field_lines r.fields
      ++ length_line r.message_body r.fields
      ++ codes "\r\n"
      ++ body_bytes r.message_body)
