-- ===== src/Tests/UpgradeCases.antt =====
-- A connection that is given to a websocket, at a concrete request.
use cndl.Base.{
  ◌≡◌, ◌+◌, length, refl, true, false, [], ◌∷◌, ◌++◌, List, Bytes, codes, some, none, arith, substr,
  find_where, All,
}
use cndl.Request.Url.{url_unescape, unescape_loop, read_escape}
use cndl.Request.Fields.{
  crlf, to_lower, extract_field_vals, extract_loop, trim_right, read_field, remove_quots,
}
use cndl.Request.Types.{Header}
use cndl.Request.Headers.{IsField}
use cndl.Request.Parse.{
  find_field, content_length_of, cookies_of, url_args_of, read_size, digits_after,
}
use cndl.Websocket.Receive.{on_data_received as websocket_received}
use cndl.Http.Protocol.{on_data_received}
use cndl.Http.Opened.{Opened}
use cndl.Http.Safety.{IsSafe, on_data_received-IsSafe}
use cndl.Dispatcher.Routes.{route_ws}
use cndl.Http.Types.{new_websocket}
use cndl.Http.Upgrade.{ignore_case_cmp}
use cndl.Http.Protocol.{prepare, with_body_args, con_upgrade, names_upgrade}
use cndl.Http.Head.{request_head}
use cndl.Http.Answer.{IsRequest}
use cndl.Http.Asks.{AsksWebsocket}
use cndl.Connection.Transmit.{takes}
use cndl.Connection.Protocols.{http}
use cndl.Connection.Handler.{gives, Connection, on_event}
use cndl.Connection.Follows.{bytes_read, Follows}
use cndl.Http.Opens.{GivesBytes, Opens, greeting, given, on_data_received-Opens}
use cndl.Connection.Upgraded.{IsGiven, on_event-Opens}
use cndl.Tests.ConnectionCases.{opened}
use cndl.Tests.DispatcherCases.{open_route}
use cndl.Tests.HttpCases.{digest-AreBytes, env, header_with}
use cndl.Tests.EventCases.{flags_with, echo, event-IsRead}

abbrev upgrade_fields : List (Bytes × Bytes)
upgrade_fields =
    (codes "Upgrade", codes "websocket")
    ∷ (codes "Connection", codes "Upgrade")
    ∷ (codes "Sec-WebSocket-Key", codes "abcd")
    ∷ (codes "Sec-WebSocket-Version", codes "13")
    ∷ []

abbrev lowered_fields : List (Bytes × Bytes)
lowered_fields =
    (codes "upgrade", codes "websocket")
    ∷ (codes "connection", codes "Upgrade")
    ∷ (codes "sec-websocket-key", codes "abcd")
    ∷ (codes "sec-websocket-version", codes "13")
    ∷ []

abbrev upgrade_header : Header
upgrade_header = header_with (codes "GET") lowered_fields 0

upgrade_fields-IsField : All IsField upgrade_fields
unfolding url_unescape unescape_loop read_escape to_lower substr find_where
upgrade_fields-IsField = (
  (omega arith, ground arith, (omega arith, refl, refl), ground arith, refl, refl),
  (
    (omega arith, ground arith, (omega arith, refl, refl), ground arith, refl, refl),
    (
      (omega arith, ground arith, (omega arith, refl, refl), ground arith, refl, refl),
      ((omega arith, ground arith, (omega arith, refl, refl), ground arith, refl, refl), tt),
    ),
  ),
)

upgrade-IsRequest :
    IsRequest (codes "GET") (codes "/a/b") (codes "HTTP/1.1") upgrade_fields upgrade_header
unfolding url_unescape unescape_loop url_args_of content_length_of find_field cookies_of to_lower
    substr find_where read_size digits_after
upgrade-IsRequest = record {
  one_word = ground arith;
  no_space = ground arith;
  one_line = ground arith;
  short = omega arith;
  readable = upgrade_fields-IsField;
  stands_for = refl;
}

upgrade_request-AsksWebsocket :
    AsksWebsocket (record { header = upgrade_header; message_body = [] })
unfolding find_field ignore_case_cmp to_lower
upgrade_request-AsksWebsocket = record {
  is_get = refl;
  upgrade_type = codes "websocket";
  upgrade = refl;
  websocket = refl;
  key = codes "abcd";
  has_key = refl;
  version = refl;
}

upgrade-Opens : Opens env upgrade_header [] new_websocket
unfolding prepare with_body_args find_field con_upgrade names_upgrade ignore_case_cmp to_lower
    extract_field_vals extract_loop find_where substr trim_right read_field remove_quots route_ws
    url_unescape unescape_loop
upgrade-Opens = record {
  request = record { header = upgrade_header; message_body = [] };
  prepared = refl;
  asks = upgrade_request-AsksWebsocket;
  opening = open_route;
  found = refl;
  opened = refl;
}

-- A connection without a byte, and the request with an empty ping behind it, cut in the ping.
abbrev fresh_connection : Connection
fresh_connection = record {
  output = opened (takes 1000 ∷ []);
  in_buf = [];
  protocol = some (http none);
}

abbrev upgrade_head : Bytes
upgrade_head = request_head (codes "GET") (codes "/a/b") (codes "HTTP/1.1") upgrade_fields

env-GivesBytes : GivesBytes env
env-GivesBytes text = digest-AreBytes

abbrev upgrade_bytes : Bytes
upgrade_bytes = upgrade_head ++ (crlf ++ [])

upgrade_outcome :
    on_data_received env none upgrade_bytes
    ≡ given env (greeting env upgrade-Opens) (length upgrade_head + 2 + 0) new_websocket
upgrade_outcome = on_data_received-Opens env env-GivesBytes [] upgrade-IsRequest refl upgrade-Opens

on_data_received-IsSafe_example : Opened none upgrade_bytes env.dispatcher.ws_routes new_websocket
on_data_received-IsSafe_example =
    coe 0 1 (i. IsSafe env none upgrade_bytes (upgrade_outcome i).ending)
      (on_data_received-IsSafe env none upgrade_bytes)

on_event-Opens_example :
    let first =
      on_event env echo
        (flags_with true false)
        (gives (upgrade_head ++ (crlf ++ (137 ∷ 128 ∷ []))) ∷ [])
        fresh_connection in
    let stream : Bytes = 137 ∷ 128 ∷ 1 ∷ 2 ∷ 3 ∷ 4 ∷ [] in
    IsGiven env echo (greeting env upgrade-Opens) new_websocket (137 ∷ 128 ∷ []) first
    × Follows (websocket_received new_websocket stream) stream (
        on_event env echo
          (flags_with true false)
          (gives (1 ∷ 2 ∷ 3 ∷ 4 ∷ []) ∷ [])
          first.connection)
unfolding bytes_read
on_event-Opens_example =
    on_event-Opens env echo env-GivesBytes (137 ∷ 128 ∷ []) (flags_with true false)
      (flags_with true false) (gives (upgrade_head ++ (crlf ++ (137 ∷ 128 ∷ []))) ∷ [])
      (gives (1 ∷ 2 ∷ 3 ∷ 4 ∷ []) ∷ []) fresh_connection upgrade-IsRequest refl upgrade-Opens
      (event-IsRead false _) (event-IsRead false _) refl refl
