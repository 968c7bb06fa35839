-- ===== src/Http/Opens.antt =====
-- A request that is given to a websocket, with more bytes behind it.
use cndl.Base.{
  ℕ, suc, ◌+◌, ◌≡◌, refl, ap, ◌∙◌, true, List, ◌∷◌, ◌++◌, append-nil, Bytes, codes, AreBytes,
  length, none, some, ok, arith,
}
use cndl.Request.Fields.{crlf}
use cndl.Request.Types.{Header, Request}
use cndl.Websocket.Types.{Event, write, nothing, Websocket}
use cndl.Dispatcher.Routes.{WsRoute, route_ws}
use cndl.Http.Types.{Surroundings, upgrades, ends, new_websocket, Outcome}
use cndl.Base64.Reference.{rfc_base64, base64_encode-eq-rfc_base64}
use cndl.Http.Protocol.{prepare, process, handle, and_then, round, serve_loop, on_data_received}
use cndl.Http.Head.{request_head}
use cndl.Http.Request.{serve_loop-head}
use cndl.Http.Answer.{IsRequest, request-IsHead}
use cndl.Http.Pipeline.{try_block-more}
use cndl.Http.Asks.{AsksWebsocket}
use cndl.Http.Handshake.{accepting, connection_upgrade-AsksWebsocket}

-- The fixed identifier of RFC 6455, 1.3.
abbrev pub identifier : Bytes
identifier = codes "258EAFA5-E914-47DA-95CA-C5AB0DC85B11"

-- `SHA1` gives bytes.
abbrev pub GivesBytes : {Pattern : Type 0} → Surroundings Pattern → Type 0
GivesBytes env = (text : Bytes) → AreBytes (env.sha1 text)

module _ {Pattern : Type 0} (env : Surroundings Pattern) where
  -- The request asks for a websocket, and there is a route that opens one.
  pub record Opens (header : Header) (body : Bytes) (ws : Websocket) : Type 0 where
    pub request : Request
    pub prepared : prepare header body ≡ ok (request, true)
    pub asks : AsksWebsocket request
    pub opening : WsRoute
    pub found : route_ws env.dispatcher.ws_routes request ≡ ok opening
    pub opened : (opening.on_open request new_websocket).1 ≡ ok ws

  -- The response of RFC 6455 to a key, and the calls that the route makes.
  abbrev pub greeting :
      {header : Header} {body : Bytes} {ws : Websocket} → Opens header body ws → List Event
  greeting o =
      write (accepting (rfc_base64 (env.sha1 (o.asks.key ++ identifier)))) nothing
      ∷ (o.opening.on_open o.request new_websocket).0

  abbrev pub given : List Event → ℕ → Websocket → Outcome
  given events consumed ws = record {
    header = none;
    events = events;
    consumed = consumed;
    ending = upgrades ws;
  }

  module _ (hash : GivesBytes env) where
    process-Opens :
        {header : Header} {body : Bytes} {ws : Websocket} (o : Opens header body ws)
        → process env header body ≡ (greeting o, ok (ends (upgrades ws)))
    unfolding process
    process-Opens o =
        rw
          (
            o.prepared,
            connection_upgrade-AsksWebsocket env o.request o.asks o.opening o.found,
            base64_encode-eq-rfc_base64 (env.sha1 (o.asks.key ++ identifier))
                (hash (o.asks.key ++ identifier)),
            o.opened,
          )
          refl

    serve_loop-Opens :
        (rounds consumed : ℕ) {header : Header} {body : Bytes} (frames : Bytes) {ws : Websocket}
        (o : Opens header body ws)
        → length body ≡ header.content_length
        → serve_loop env
            (suc rounds)
            (record { header = some header; received = body ++ frames; consumed = consumed })
          ≡ given (greeting o) (consumed + length body) ws
    unfolding serve_loop round handle and_then
    serve_loop-Opens rounds consumed {header} {body} frames {ws} o full =
        rw (try_block-more env consumed header body frames full, process-Opens o)
          (ap (λ events. given events (consumed + length body) ws) (append-nil (greeting o)))

    pub on_data_received-Opens :
        {method target version : Bytes} {fields : List (Bytes × Bytes)} {header : Header}
        {body : Bytes} (frames : Bytes) {ws : Websocket}
        → IsRequest method target version fields header
        → length body ≡ header.content_length
        → (o : Opens header body ws)
        → on_data_received env none
            (request_head method target version fields ++ (crlf ++ (body ++ frames)))
          ≡ given
              (greeting o)
              (length (request_head method target version fields) + 2 + length body)
              ws
    unfolding on_data_received
    on_data_received-Opens {method} {target} {version} {fields} {header} {body} frames {ws} r full
          o =
        let head = request_head method target version fields in
        let received = head ++ (crlf ++ (body ++ frames)) in
        let (idx, h, size, behind) = request-IsHead r (body ++ frames) in
        let taken : idx + 4 + length body ≡ length head + 2 + length body = omega arith in
        serve_loop-head env (suc (length received)) h
        ∙ ap
            (λ v.
              serve_loop env (suc (suc (length received)))
                (record { header = some header; received = v; consumed = idx + 4 }))
            behind
        ∙ serve_loop-Opens (suc (length received)) (idx + 4) frames o full
        ∙ ap (λ n. given (greeting o) n ws) taken
