-- ===== src/Http/Opened.antt =====
-- How a websocket is opened for a request that was received.
use cndl.Base.{
  ◌≡◌, refl, sym, ap, ◌∙◌, inl, inr, List, ◌∷◌, ◌++◌, Bytes, true, Option, Result, ok, err,
}
use cndl.Request.Types.{Header, Request}
use cndl.Response.Types.{serialize}
use cndl.Websocket.Types.{Websocket}
use cndl.Dispatcher.Routes.{WsRoute, route_ws}
use cndl.Dispatcher.Answer.{route_ws_lem}
use cndl.Http.Types.{Surroundings, new_websocket}
use cndl.Http.Upgrade.{websocket_key, upgrade_response, open_with, open_found, upgrade_with}
use cndl.Http.Origin.{Origin}
use cndl.Http.Asks.{AsksWebsocket, websocket_key-eq-ok}

-- A request that was received, and a route of the dispatcher that accepts it and opens the websocket.
pub record Opened (member : Option Header) (received : Bytes) (routes : List WsRoute)
    (ws : Websocket) : Type 0 where
  pub request : Request
  pub origin : Origin member received request
  pub asks : AsksWebsocket request
  pub opening : WsRoute
  pub before : List WsRoute
  pub behind : List WsRoute
  pub listed : routes ≡ before ++ (opening ∷ behind)
  pub accepts : opening.can_open request ≡ ok true
  pub opens : (opening.on_open request new_websocket).1 ≡ ok ws

module _ {Pattern : Type 0} (env : Surroundings Pattern) (member : Option Header)
    (received : Bytes) where
  accepted :
      (request : Request) (r : WsRoute)
      → route_ws env.dispatcher.ws_routes request ≡ ok r
      → (before : List WsRoute) × (behind : List WsRoute) × (env.dispatcher.ws_routes
          ≡ before ++ (r ∷ behind))
        × (r.can_open request ≡ ok true)
  accepted request r found = elim (route_ws_lem env.dispatcher.ws_routes request) [
    | inl (all, none_accepts) ↦ absurd cc
    | inr (before, q, behind, splits, others, inl (accepts, opened)) ↦
        let same : q ≡ r = cc in
        (before, behind, splits ∙ ap (λ x. before ++ (x ∷ behind)) same, rw (sym same) accepts)
    | inr (before, q, behind, splits, others, inr (e, thrown, left)) ↦ absurd cc
  ]

  open_with-eq-ok :
      (r : WsRoute) (request : Request) (m : Result Bytes) {ws : Websocket}
      → (open_with r request m).1 ≡ ok ws
      → (r.on_open request new_websocket).1 ≡ ok ws
  open_with-eq-ok r request (err e) h = cc
  open_with-eq-ok r request (ok bytes) h = h

  open_found-Opened :
      (request : Request) (hash : Bytes) (found : Result WsRoute) {ws : Websocket}
      → Origin member received request
      → AsksWebsocket request
      → route_ws env.dispatcher.ws_routes request ≡ found
      → (open_found request hash found).1 ≡ ok ws
      → Opened member received env.dispatcher.ws_routes ws
  open_found-Opened request hash (err e) origin asks same h = absurd cc
  open_found-Opened request hash (ok r) origin asks same h =
      let (before, behind, listed, accepts) = accepted request r same in
      record {
        request = request;
        origin = origin;
        asks = asks;
        opening = r;
        before = before;
        behind = behind;
        listed = listed;
        accepts = accepts;
        opens = open_with-eq-ok r request (serialize (upgrade_response hash)) h;
      }

  pub upgrade_with-Opened :
      (request : Request) (key : Result Bytes) {ws : Websocket}
      → Origin member received request
      → websocket_key request ≡ key
      → (upgrade_with env request key).1 ≡ ok ws
      → Opened member received env.dispatcher.ws_routes ws
  upgrade_with-Opened request (err e) origin same h = absurd cc
  upgrade_with-Opened request (ok key) origin same h =
      open_found-Opened request _ _ origin (websocket_key-eq-ok request same) refl h
