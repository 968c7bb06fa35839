-- ===== src/Tests/HttpCases.antt =====
-- The theorems on the HTTP protocol at concrete requests.
use cndl.Base.{
  ℕ, ◌+◌, ◌≤◌, ◌≡◌, ◌⊎◌, refl, [], ◌∷◌, ◌++◌, Bytes, codes, All, AreBytes, length, some, none,
  arith, substr, find_where,
}
use cndl.Request.Url.{url_unescape, unescape_loop, read_escape}
use cndl.Request.Fields.{FieldMap, crlf, to_lower}
use cndl.Request.Types.{Header}
use cndl.Request.Headers.{IsField}
use cndl.Request.Parse.{
  find_field, content_length_of, cookies_of, url_args_of, parse_header, read_size, digits_after,
}
use cndl.Response.Fields.{has}
use cndl.Response.Types.{find_reason, reason_of, field_lines, length_line, serialize}
use cndl.Response.Decimal.{digits, decimal}
use cndl.Websocket.Types.{write, nothing}
use cndl.Dispatcher.Extract.{extract}
use cndl.Dispatcher.Routes.{route, match_infos, largest, call}
use cndl.Http.Types.{Surroundings, endless}
use cndl.Http.Protocol.{
  with_body_args, con_upgrade, prepare, dispatch, process, serve_loop, on_data_received,
}
use cndl.Http.Head.{request_head}
use cndl.Http.Request.{start, kept, served}
use cndl.Http.Answer.{IsRequest, on_data_received-request, on_data_received-in_two}
use cndl.Http.Next.{IsFinite, IsRefused}
use cndl.Http.Ends.{IsRoute}
use cndl.Http.Rounds.{MeetsRefused, on_data_received-IsFinite}
use cndl.Http.Endless.{repeated, serve_loop-IsRefused}
use cndl.Http.Pipeline.{stopped, on_data_received-pipelined}
use cndl.Tests.DispatcherCases.{match_prefix, routes, open_route, closed_route}

-- A digest of 20 bytes.
abbrev digest : Bytes
digest = codes "abcdefghijklmnopqrst"

pub digest-AreBytes : AreBytes digest
digest-AreBytes = ground arith

abbrev pub env : Surroundings Bytes
env = record {
  dispatcher = record {
    routes = routes;
    ws_routes = closed_route ∷ open_route ∷ [];
    error_body_generator = none;
  };
  regex_match = match_prefix;
  sha1 = λ text. digest;
  moved_from = λ s. [];
}

abbrev five : Bytes × Bytes
five = (codes "Content-Length", codes "5")

five-IsField : IsField five
unfolding url_unescape unescape_loop read_escape to_lower substr find_where
five-IsField = (omega arith, ground arith, (omega arith, refl, refl), ground arith, refl, refl)

abbrev pub header_with : Bytes → FieldMap → ℕ → Header
header_with method fields content_length = record {
  method = method;
  resource = codes "/a/b";
  url = codes "/a/b";
  version = codes "HTTP/1.1";
  cookies = [];
  fields = fields;
  url_args = [];
  body_args = [];
  content_length = content_length;
}

abbrev post_header : Header
post_header = header_with (codes "POST") ((codes "content-length", codes "5") ∷ []) 5

abbrev pub get_header : Header
get_header = header_with (codes "GET") [] 0

post-IsRequest : IsRequest (codes "POST") (codes "/a/b") (codes "HTTP/1.1") (five ∷ []) post_header
unfolding url_unescape unescape_loop url_args_of content_length_of find_field cookies_of to_lower
    substr find_where read_size digits_after
post-IsRequest = record {
  one_word = ground arith;
  no_space = ground arith;
  one_line = ground arith;
  short = omega arith;
  readable = (five-IsField, tt);
  stands_for = refl;
}

pub get-IsRequest : IsRequest (codes "GET") (codes "/a/b") (codes "HTTP/1.1") [] get_header
unfolding url_unescape unescape_loop url_args_of content_length_of find_field cookies_of to_lower
    substr find_where read_size digits_after
get-IsRequest = record {
  one_word = ground arith;
  no_space = ground arith;
  one_line = ground arith;
  short = omega arith;
  readable = tt;
  stands_for = refl;
}

abbrev post_head : Bytes
post_head = request_head (codes "POST") (codes "/a/b") (codes "HTTP/1.1") (five ∷ [])

abbrev pub get_head : Bytes
get_head = request_head (codes "GET") (codes "/a/b") (codes "HTTP/1.1") []

abbrev bad_request : Bytes
bad_request =
    codes
      "HTTP/1.1 400 Bad Request\r\nContent-Type: text/html, charset=utf-8\r\nContent-Length: 20\r\n\r\ninvalid Request-Line"

abbrev uncaught_error : Bytes
uncaught_error =
    codes
      "HTTP/1.1 500 Internal Server Error\r\nContent-Type: text/html, charset=utf-8\r\nContent-Length: 14\r\n\r\nuncaught error"

on_data_received-request_example :
    on_data_received env none (post_head ++ (crlf ++ codes "hello"))
    ≡ served env post_header (codes "hello") (length (post_head ++ (crlf ++ codes "hello")))
on_data_received-request_example = on_data_received-request post-IsRequest (codes "hello") env refl

on_data_received-in_two_example :
    (on_data_received env none (post_head ++ (crlf ++ codes "he"))
      ≡ kept post_header (length post_head + 2))
    × (on_data_received env (some post_header) (codes "he" ++ codes "llo")
        ≡ record (on_data_received env none (post_head ++ (crlf ++ (codes "he" ++ codes "llo")))) {
          consumed = length (codes "he" ++ codes "llo");
        })
on_data_received-in_two_example =
    on_data_received-in_two env (codes "POST") (codes "/a/b") (codes "HTTP/1.1") (five ∷ [])
      post_header (codes "he") (codes "llo") post-IsRequest (omega arith) refl

routes-IsRoute : All IsRoute env.dispatcher.ws_routes
routes-IsRoute = (
  record { can_open = λ request. tt; on_open = λ request ws. tt },
  (record { can_open = λ request. tt; on_open = λ request ws. tt }, tt),
)

on_data_received-IsFinite_example :
    ((on_data_received env none (post_head ++ (crlf ++ codes "hello"))).consumed
      ≤ length (post_head ++ (crlf ++ codes "hello")))
    × (IsFinite (on_data_received env none (post_head ++ (crlf ++ codes "hello"))).ending
        ⊎ MeetsRefused env (start none (post_head ++ (crlf ++ codes "hello"))))
on_data_received-IsFinite_example =
    on_data_received-IsFinite env none (post_head ++ (crlf ++ codes "hello")) tt (omega arith)
      routes-IsRoute

-- A request line with no version, and the response that is sent again and again.
refused-IsRefused : IsRefused (codes "GET /\r\n\r\n")
unfolding parse_header find_where
refused-IsRefused = record {
  idx = 5;
  code = 400;
  what = codes "invalid Request-Line";
  found = refl;
  refused = refl;
  below = refl;
}

serve_loop-IsRefused_example :
    serve_loop env 1000 (start none (codes "GET /\r\n\r\n"))
    ≡ record { header = none; events = repeated 1000 bad_request; consumed = 0; ending = endless }
unfolding serialize reason_of find_reason field_lines length_line decimal digits has
    refused-IsRefused
serve_loop-IsRefused_example =
    serve_loop-IsRefused env (codes "GET /\r\n\r\n") refused-IsRefused bad_request 1000 refl

on_data_received-pipelined_example :
    on_data_received env none (get_head ++ (crlf ++ ([] ++ (post_head ++ (crlf ++ codes "hello")))))
    ≡ stopped post_header
        ((process env get_header []).0 ++ (write uncaught_error nothing ∷ []))
        (length get_head + 2 + 0 + (length post_head + 2))
unfolding process prepare with_body_args find_field con_upgrade dispatch route match_infos largest
    call extract serialize reason_of find_reason field_lines length_line decimal digits has
on_data_received-pipelined_example =
    on_data_received-pipelined env (codes "GET") (codes "/a/b") (codes "HTTP/1.1") (codes "POST")
      (codes "/a/b") (codes "HTTP/1.1") [] (five ∷ []) get_header post_header [] (codes "hello")
      uncaught_error get-IsRequest refl refl post-IsRequest (omega arith) refl
