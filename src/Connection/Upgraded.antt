-- ===== src/Connection/Upgraded.antt =====
-- A connection that is given to a websocket.
use cndl.Base.{
  ℕ, ◌+◌, ◌≡◌, refl, sym, ap, ◌∙◌, List, ◌++◌, append_assoc, Bytes, length, length-append, drop,
  drop-append_length, none, some, arith,
}
use cndl.Request.Fields.{crlf}
use cndl.Request.Types.{Header}
use cndl.Websocket.Types.{Event, Websocket}
use cndl.Websocket.Receive.{on_data_received as websocket_received}
use cndl.Http.Types.{Surroundings}
use cndl.Http.Protocol.{on_data_received}
use cndl.Http.Head.{request_head}
use cndl.Http.Answer.{IsRequest}
use cndl.Connection.Protocols.{http, websocket, received_by_http}
use cndl.Connection.Handler.{
  RecvAnswer, Connection, Flags, returns, Handled, Application, take_in, finish, on_event,
}
use cndl.Connection.Follows.{bytes_read, Follows, finish-keeps}
use cndl.Connection.Reads.{IsRead, on_event-Follows}
use cndl.Connection.Served.{on_event-http}
use cndl.Http.Opens.{GivesBytes, Opens, greeting, given, on_data_received-Opens}

module _ {Pattern : Type 0} (env : Surroundings Pattern) (app : Application) where
  -- What is behind the event: the calls, the return, the websocket, and the bytes that are left.
  pub record IsGiven (events : List Event) (ws : Websocket) (frames : Bytes) (h : Handled)
      : Type 0 where
    pub calls : h.events ≡ events
    pub leaving : h.leaving ≡ returns
    pub protocol : h.connection.protocol ≡ some (websocket ws)
    pub in_buf : h.connection.in_buf ≡ frames

  take_in-given :
      (c : Connection) (events : List Event) (consumed : ℕ) (ws : Websocket) (frames : Bytes)
      → drop consumed c.in_buf ≡ frames
      → IsGiven events ws frames
          (take_in env app c (received_by_http (given env events consumed ws)))
  unfolding take_in
  take_in-given c events consumed ws frames left = record {
    calls = refl;
    leaving = refl;
    protocol = refl;
    in_buf = left;
  }

  finish-IsGiven :
      (flags : Flags) (events : List Event) (ws : Websocket) (frames : Bytes) (h : Handled)
      → IsGiven events ws frames h
      → IsGiven events ws frames (finish flags h)
  finish-IsGiven flags events ws frames h g =
      let (protocol, buffer, calls, leaving) = finish-keeps flags h.connection h.events h.leaving in
      record {
        calls = calls ∙ g.calls;
        leaving = leaving ∙ g.leaving;
        protocol = protocol ∙ g.protocol;
        in_buf = buffer ∙ g.in_buf;
      }

  drop-request :
      (head body frames : Bytes)
      → drop (length head + 2 + length body) (head ++ (crlf ++ (body ++ frames))) ≡ frames
  drop-request head body frames =
      let front = length-append head (crlf ++ body) in
      let grouped : head ++ (crlf ++ (body ++ frames)) ≡ (head ++ (crlf ++ body)) ++ frames =
        sym (append_assoc head (crlf ++ body) frames) in
      ap (drop (length head + 2 + length body)) grouped
      ∙ drop-append_length (length head + 2 + length body) (head ++ (crlf ++ body)) frames
          (omega arith)

  on_event-IsGiven :
      GivesBytes env
      → {method target version : Bytes} {fields : List (Bytes × Bytes)} {header : Header}
        {body : Bytes} (frames : Bytes) {ws : Websocket} (flags : Flags) (answers : List RecvAnswer)
        (c : Connection)
      → IsRequest method target version fields header
      → length body ≡ header.content_length
      → (o : Opens env header body ws) → IsRead flags answers
      → c.protocol ≡ some (http none)
      → c.in_buf ++ bytes_read answers
        ≡ request_head method target version fields ++ (crlf ++ (body ++ frames))
      → IsGiven (greeting env o) ws frames (on_event env app flags answers c)
  on_event-IsGiven hash {method} {target} {version} {fields} {header} {body} frames {ws} flags
        answers c q full o r is_http all =
      let head = request_head method target version fields in
      let read : Connection = record c { in_buf = c.in_buf ++ bytes_read answers } in
      let n = length head + 2 + length body in
      let called =
        on_event-http env app flags answers c none r is_http
        ∙ ap
            (λ v.
              finish flags (take_in env app read (received_by_http (on_data_received env none v))))
            all
        ∙ ap (λ t. finish flags (take_in env app read (received_by_http t)))
            (on_data_received-Opens env hash frames q full o) in
      rw called (
        finish-IsGiven flags (greeting env o) ws frames _ (
          take_in-given read (greeting env o) n ws frames
            (ap (drop n) all ∙ drop-request head body frames)))

  -- A client writes a request for a websocket, for which there is a route that opens one, and other
  -- bytes behind it, however they are cut into reads. The event writes the response of RFC 6455, with
  -- the SHA-1 of the key and of the fixed identifier in the base64 of RFC 4648, where `SHA1` is taken
  -- to give bytes, and makes the calls of the route, in this order, gives the connection to the websocket, and keeps
  -- exactly the bytes behind the request. The next event hands them to the websocket together with
  -- those that it reads, and makes the calls that the websocket makes on them.
  pub on_event-Opens :
      GivesBytes env
      → {method target version : Bytes} {fields : List (Bytes × Bytes)} {header : Header}
        {body : Bytes} (frames : Bytes) {ws : Websocket} (flags flags2 : Flags)
        (answers answers2 : List RecvAnswer) (c : Connection)
      → IsRequest method target version fields header
      → length body ≡ header.content_length
      → (o : Opens env header body ws) → IsRead flags answers
      → IsRead flags2 answers2
      → c.protocol ≡ some (http none)
      → c.in_buf ++ bytes_read answers
        ≡ request_head method target version fields ++ (crlf ++ (body ++ frames))
      → let first = on_event env app flags answers c in
        let stream = frames ++ bytes_read answers2 in
        IsGiven (greeting env o) ws frames first
        × Follows
            (websocket_received ws stream)
            stream
            (on_event env app flags2 answers2 first.connection)
  on_event-Opens hash frames {ws} flags flags2 answers answers2 c q full o r r2 is_http all =
      let first = on_event env app flags answers c in
      let given_on = on_event-IsGiven hash frames flags answers c q full o r is_http all in
      let next =
        on_event-Follows env app flags2 answers2 first.connection ws r2 given_on.protocol in
      (
        given_on,
        coe 0 1
            (i.
              Follows (websocket_received ws (given_on.in_buf i ++ bytes_read answers2))
                (given_on.in_buf i ++ bytes_read answers2)
                (on_event env app flags2 answers2 first.connection))
            next,
      )
