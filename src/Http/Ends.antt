-- ===== src/Http/Ends.antt =====
-- What a request leads to never uses up the rounds of a loop of the model.
use cndl.Base.{
  Bool, true, false, List, [], ◌∷◌, ◌++◌, Bytes, codes, str_eq, starts_with, All, Option, none,
  some, Result, ok, err, Exception, error, runtime_error, out_of_range, invalid_argument,
  length_error, undefined, stuck, ◌>>=◌, if◌then◌else◌,
}
use cndl.Request.Fields.{FieldVal, word, kv_pair, extract_field_vals}
use cndl.Request.Types.{Header, Request}
use cndl.Request.Parse.{find_field}
use cndl.Request.Multipart.{read_multipart_body}
use cndl.Request.Rounds.{Ends, Ends->>=, Ends-if, extract_field_vals-Ends}
use cndl.Request.PartRounds.{multipart_body-Ends}
use cndl.Response.Types.{Response, reason_for, find_reason, reason_of, serialize}
use cndl.Response.Tables.{code2reason}
use cndl.Websocket.Types.{Websocket}
use cndl.Dispatcher.Routes.{WsRoute, route_ws}
use cndl.Http.Types.{Surroundings, new_websocket}
use cndl.Http.Upgrade.{
  ignore_case_cmp, magic_ws_guid, or_throw, websocket_key, upgrade_response, open_with, open_found,
  upgrade_with, connection_upgrade, bad_upgrade,
}
use cndl.Http.Protocol.{
  boundary_of, read_parts, with_parts, with_content_type, with_body_args, asks_upgrade, con_upgrade,
  prepare,
}

reason_for-Ends : (phrase : Bytes) (found : Option Bytes) → Ends (reason_for phrase found)
reason_for-Ends [] none = tt
reason_for-Ends [] (some reason) = tt
reason_for-Ends (c ∷ phrase) found = tt

pub serialize-Ends : (r : Response) → Ends (serialize r)
unfolding serialize reason_of
serialize-Ends r =
    Ends->>= (reason_of r) _
      (reason_for-Ends r.reason_phrase (find_reason r.status_code code2reason)) (λ reason. tt)

read_parts-Ends :
    (header : Header) (message : Bytes) (boundary : Option Bytes)
    → Ends (read_parts header message boundary)
read_parts-Ends header message none = tt
read_parts-Ends header message (some boundary) =
    Ends->>= (read_multipart_body message boundary) _ (multipart_body-Ends message boundary)
      (λ args. tt)

with_parts-Ends :
    (header : Header) (message : Bytes) (vals : List FieldVal)
    → Ends (with_parts header message vals)
unfolding with_parts
with_parts-Ends header message [] = tt
with_parts-Ends header message (kv_pair key value ∷ vals) = tt
with_parts-Ends header message (word kind ∷ []) =
    Ends-if (starts_with (codes "multipart/") kind) _ _ tt tt
with_parts-Ends header message (word kind ∷ (val ∷ vals)) =
    Ends-if (starts_with (codes "multipart/") kind) _ _
      (read_parts-Ends header message (boundary_of (val ∷ vals))) tt

with_content_type-Ends :
    (header : Header) (message : Bytes) (enctype : Option Bytes)
    → Ends (with_content_type header message enctype)
with_content_type-Ends header message none = tt
with_content_type-Ends header message (some enctype) =
    Ends->>= (extract_field_vals enctype (codes ";,")) _
      (extract_field_vals-Ends enctype (codes ";,")) (λ vals. with_parts-Ends header message vals)

asks_upgrade-Ends : (con_field : Option Bytes) → Ends (asks_upgrade con_field)
asks_upgrade-Ends none = tt
asks_upgrade-Ends (some con_field) =
    Ends->>= (extract_field_vals con_field (codes ",;")) _
      (extract_field_vals-Ends con_field (codes ",;")) (λ vals. tt)

pub prepare-Ends : (header : Header) (message : Bytes) → Ends (prepare header message)
unfolding prepare with_body_args con_upgrade
prepare-Ends header message =
    Ends->>= (with_body_args header message) _ (with_content_type-Ends header message _)
      (λ processed. Ends->>= (con_upgrade processed) _ (asks_upgrade-Ends _) (λ upgrade. tt))

or_throw-Ends : (o : Option Bytes) → Ends (or_throw bad_upgrade o)
or_throw-Ends none = tt
or_throw-Ends (some value) = tt

websocket_key-Ends : (request : Request) → Ends (websocket_key request)
unfolding websocket_key
websocket_key-Ends request =
    let fields = request.header.fields in
    Ends-if (str_eq request.header.method (codes "GET")) _ _
      (Ends->>= (or_throw bad_upgrade (find_field (codes "upgrade") fields)) _ (or_throw-Ends _)
        (λ upgrade_type.
          Ends-if (ignore_case_cmp upgrade_type (codes "websocket")) _ _
            (Ends->>= (or_throw bad_upgrade (find_field (codes "sec-websocket-key") fields)) _
              (or_throw-Ends _)
              (λ key.
                Ends->>= (or_throw bad_upgrade (find_field (codes "sec-websocket-version") fields))
                  _ (or_throw-Ends _) (λ version. Ends-if (str_eq version (codes "13")) _ _ tt tt)))
            tt))
      tt

-- A route of an application, which does not know the exception that the model alone has.
pub record IsRoute (r : WsRoute) : Type 0 where
  pub can_open : (request : Request) → Ends (r.can_open request)
  pub on_open : (request : Request) (ws : Websocket) → Ends (r.on_open request ws).1

abbrev Found : Result WsRoute → Type 0
Found (ok r) = IsRoute r
Found (err e) = Ends {A = WsRoute} (err e)

Found->>= :
    (m : Result Bool) (r : WsRoute) (rest : Result WsRoute)
    → Ends m
    → IsRoute r
    → Found rest
    → Found (m >>= λ accept. if accept then ok r else rest)
Found->>= (ok true) r rest h k l = k
Found->>= (ok false) r rest h k l = l
Found->>= (err out_of_range) r rest h k l = tt
Found->>= (err invalid_argument) r rest h k l = tt
Found->>= (err length_error) r rest h k l = tt
Found->>= (err undefined) r rest h k l = tt
Found->>= (err (error code what)) r rest h k l = tt
Found->>= (err (runtime_error what)) r rest h k l = tt
Found->>= (err stuck) r rest h k l = h

route_ws-Found :
    (routes : List WsRoute) (request : Request)
    → All IsRoute routes
    → Found (route_ws routes request)
unfolding route_ws
route_ws-Found [] request h = tt
route_ws-Found (r ∷ routes) request h =
    Found->>= (r.can_open request) r (route_ws routes request) (h.0.can_open request) h.0
      (route_ws-Found routes request h.1)

pub Ends-err : (A B : Type 0) (e : Exception) → Ends {A = A} (err e) → Ends {A = B} (err e)
Ends-err A B out_of_range h = tt
Ends-err A B invalid_argument h = tt
Ends-err A B length_error h = tt
Ends-err A B undefined h = tt
Ends-err A B (error code what) h = tt
Ends-err A B (runtime_error what) h = tt
Ends-err A B stuck h = h

open_with-Ends :
    (r : WsRoute) (request : Request) (m : Result Bytes)
    → IsRoute r
    → Ends m
    → Ends (open_with r request m).1
open_with-Ends r request (ok bytes) h k = h.on_open request new_websocket
open_with-Ends r request (err e) h k = Ends-err Bytes Websocket e k

open_found-Ends :
    (request : Request) (hash : Bytes) (m : Result WsRoute)
    → Found m
    → Ends (open_found request hash m).1
open_found-Ends request hash (ok r) h =
    open_with-Ends r request (serialize (upgrade_response hash)) h (serialize-Ends _)
open_found-Ends request hash (err e) h = Ends-err WsRoute Websocket e h

module _ {Pattern : Type 0} (env : Surroundings Pattern)
    (routes : All IsRoute env.dispatcher.ws_routes) where
  upgrade_with-Ends :
      (request : Request) (key : Result Bytes) → Ends key → Ends (upgrade_with env request key).1
  upgrade_with-Ends request (ok key) h =
      open_found-Ends request (env.sha1 (key ++ magic_ws_guid))
        (route_ws env.dispatcher.ws_routes request)
        (route_ws-Found env.dispatcher.ws_routes request routes)
  upgrade_with-Ends request (err e) h = Ends-err Bytes Websocket e h

  pub connection_upgrade-Ends : (request : Request) → Ends (connection_upgrade env request).1
  unfolding connection_upgrade
  connection_upgrade-Ends request =
      upgrade_with-Ends request (websocket_key request) (websocket_key-Ends request)
