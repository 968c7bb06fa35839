-- ===== src/Http/Handshake.antt =====
-- What a client reads when its connection is given to a websocket.
use cndl.Base.{◌≡◌, ap, [], ◌∷◌, ◌++◌, append_assoc, append-nil, Bytes, codes, ok}
use cndl.Request.Types.{Request}
use cndl.Response.Fields.{emplace}
use cndl.Response.Decimal.{digits, decimal}
use cndl.Response.Types.{find_reason, reason_of, field_lines, length_line, serialize}
use cndl.Base64.Codec.{base64_encode}
use cndl.Websocket.Types.{write, nothing}
use cndl.Dispatcher.Routes.{WsRoute, route_ws}
use cndl.Http.Types.{Surroundings, new_websocket}
use cndl.Http.Upgrade.{magic_ws_guid, websocket_key, upgrade_response, connection_upgrade}
use cndl.Http.Asks.{AsksWebsocket}

websocket_key-AsksWebsocket :
    (request : Request) (a : AsksWebsocket request) → websocket_key request ≡ ok a.key
unfolding websocket_key
websocket_key-AsksWebsocket request a = rw (a.is_get, a.upgrade, a.websocket, a.has_key, a.version)

abbrev handshake_front : Bytes
handshake_front =
    codes
      "HTTP/1.1 101 Switching Protocols\r\nConnection: Upgrade\r\nContent-Type: text/html, charset=utf-8\r\nSec-WebSocket-Accept: "

-- The response to the handshake of RFC 6455.
abbrev pub accepting : Bytes → Bytes
accepting accept = handshake_front ++ (accept ++ codes "\r\nUpgrade: websocket\r\n\r\n")

abbrev pub handshake : Bytes → Bytes
handshake hash = accepting (base64_encode hash)

regroup : (a b c d : Bytes) → ((((a ++ b) ++ c) ++ []) ++ d) ++ [] ≡ a ++ (b ++ (c ++ d))
regroup a b c d = simp (append_assoc, append-nil)

serialize-upgrade_response :
    (hash : Bytes) → serialize (upgrade_response hash) ≡ ok (handshake hash)
unfolding serialize upgrade_response reason_of find_reason field_lines length_line emplace decimal
    digits
serialize-upgrade_response hash =
    let accept = base64_encode hash in
    ap (λ t. ok (handshake_front ++ t))
      (regroup accept (codes "\r\n") (codes "Upgrade: websocket\r\n") (codes "\r\n"))

module _ {Pattern : Type 0} (env : Surroundings Pattern) where
  -- A request that asks for a websocket, and for which the dispatcher has a route, is answered by the
  -- response of RFC 6455 to its key, with the SHA-1 of the key and of the fixed identifier in base64,
  -- before the route opens the websocket; what the route throws comes out behind that response.
  pub connection_upgrade-AsksWebsocket :
      (request : Request) (a : AsksWebsocket request) (r : WsRoute)
      → route_ws env.dispatcher.ws_routes request ≡ ok r
      → connection_upgrade env request ≡ (
        write (handshake (env.sha1 (a.key ++ magic_ws_guid))) nothing
            ∷ (r.on_open request new_websocket).0,
        (r.on_open request new_websocket).1,
      )
  unfolding connection_upgrade
  connection_upgrade-AsksWebsocket request a r found = rw (
    websocket_key-AsksWebsocket request a,
    found,
    serialize-upgrade_response (env.sha1 (a.key ++ magic_ws_guid)),
  )
