-- ===== src/Http/Upgrade.antt =====
-- `connection_upgrade` of HttpProtocol.cpp.
use cndl.Base.{
  List, [], ◌∷◌, ◌++◌, Bytes, codes, str_eq, length, ◌==◌, Bool, false, if◌then◌else◌, Option, none,
  some, Result, ok, err, ◌>>=◌, error, Exception,
}
use cndl.Request.Fields.{to_lower}
use cndl.Request.Types.{Request}
use cndl.Request.Parse.{find_field}
use cndl.Response.Fields.{emplace}
use cndl.Response.Types.{Response, new_response, serialize}
use cndl.Base64.Codec.{base64_encode}
use cndl.Websocket.Types.{Event, write, nothing, Websocket}
use cndl.Dispatcher.Routes.{WsRoute, route_ws}
use cndl.Http.Types.{Surroundings, new_websocket}

unfoldable pub ignore_case_cmp : Bytes → Bytes → Bool
ignore_case_cmp l r = if length l == length r then str_eq (to_lower l) (to_lower r) else false

abbrev pub magic_ws_guid : Bytes
magic_ws_guid = codes "258EAFA5-E914-47DA-95CA-C5AB0DC85B11"

abbrev pub or_throw : Exception → Option Bytes → Result Bytes
or_throw e none = err e
or_throw e (some value) = ok value

abbrev pub bad_upgrade : Exception
bad_upgrade = error 400 (codes "bad upgrade")

-- The checks of the request, which give the key.
unfoldable pub websocket_key : Request → Result Bytes
websocket_key request =
    let fields = request.header.fields in
    if str_eq request.header.method (codes "GET")
    then (do
      upgrade_type ← or_throw bad_upgrade (find_field (codes "upgrade") fields)
      if ignore_case_cmp upgrade_type (codes "websocket")
          then (do
            key ← or_throw bad_upgrade (find_field (codes "sec-websocket-key") fields)
            version ← or_throw bad_upgrade (find_field (codes "sec-websocket-version") fields)
            if str_eq version (codes "13")
                then ok key
                else err (error 501 (codes "bad websocket version")))
          else err (error 501 (codes "unknown upgrade")))
    else err (error 405 [])

unfoldable pub upgrade_response : Bytes → Response
upgrade_response hash = record new_response {
  status_code = 101;
  fields = emplace (codes "Sec-WebSocket-Accept") (base64_encode hash) (
      emplace (codes "Connection") (codes "Upgrade")
        (emplace (codes "Upgrade") (codes "websocket") new_response.fields));
}

-- The route is looked for and the response is sent before the route is told.
abbrev pub open_with : WsRoute → Request → Result Bytes → List Event × Result Websocket
open_with r request (err e) = ([], err e)
open_with r request (ok bytes) =
    let opened = r.on_open request new_websocket in (write bytes nothing ∷ opened.0, opened.1)

abbrev pub open_found : Request → Bytes → Result WsRoute → List Event × Result Websocket
open_found request hash (err e) = ([], err e)
open_found request hash (ok r) = open_with r request (serialize (upgrade_response hash))

module _ {Pattern : Type 0} (env : Surroundings Pattern) where
  abbrev pub upgrade_with : Request → Result Bytes → List Event × Result Websocket
  upgrade_with request (err e) = ([], err e)
  upgrade_with request (ok key) =
      open_found request (env.sha1 (key ++ magic_ws_guid))
        (route_ws env.dispatcher.ws_routes request)

  unfoldable pub connection_upgrade : Request → List Event × Result Websocket
  connection_upgrade request = upgrade_with request (websocket_key request)
