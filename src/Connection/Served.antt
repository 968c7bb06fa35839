-- ===== src/Connection/Served.antt =====
-- A request that a client writes to a connection, and the response that it gets.
use cndl.Base.{
  ℕ, ◌≡◌, refl, sym, ap, ◌∙◌, false, List, [], ◌∷◌, ◌++◌, Bytes, codes, if◌then◌else◌, str_eq,
  length, drop, Option, none, some, ok,
}
use cndl.Request.Fields.{crlf}
use cndl.Request.Types.{Header, Request}
use cndl.Response.Types.{serialize}
use cndl.Websocket.Types.{write, nothing}
use cndl.Dispatcher.Routes.{route}
use cndl.Http.Types.{Surroundings, waits, Outcome}
use cndl.Http.Protocol.{prepare, dispatch, process, handle, on_data_received}
use cndl.Http.Head.{request_head}
use cndl.Http.Request.{served}
use cndl.Http.Answer.{IsRequest, on_data_received-request}
use cndl.Connection.Protocols.{http, protocol_received, received_by_http}
use cndl.Connection.Handler.{
  RecvAnswer, Connection, Flags, returns, Handled, Application, take_in, hang_up, hand_over,
  read_if, on_readable, finish, on_event,
}
use cndl.Connection.Follows.{bytes_read, read_loop-eq, finish-keeps}
use cndl.Connection.Reads.{IsRead}

module _ {Pattern : Type 0} (env : Surroundings Pattern) where
  -- The request asks for no upgrade, the dispatcher has a response for it that can be written, and
  -- the version does not end the connection.
  pub record Dispatched (header : Header) (body response : Bytes) : Type 0 where
    pub request : Request
    pub prepared : prepare header body ≡ ok (request, false)
    pub answers :
        serialize
          (route env.regex_match env.dispatcher.error_body_generator env.dispatcher.routes request)
        ≡ ok response
    pub stays : str_eq (env.moved_from request.header.version) (codes "HTTP/1.0") ≡ false

  -- A call that writes the response and waits for the next request.
  abbrev pub responded : Bytes → ℕ → Outcome
  responded response consumed = record {
    header = none;
    events = write response nothing ∷ [];
    consumed = consumed;
    ending = waits;
  }

  served-Dispatched :
      {header : Header} {body response : Bytes} (consumed : ℕ)
      → Dispatched header body response
      → served env header body consumed ≡ responded response consumed
  unfolding process dispatch handle
  served-Dispatched consumed d = rw (d.prepared, d.answers, d.stays) refl

  -- What is behind an event: the calls, the return, an empty buffer, and HTTP from the start.
  pub record Responded (response : Bytes) (h : Handled) : Type 0 where
    pub events : h.events ≡ write response nothing ∷ []
    pub leaving : h.leaving ≡ returns
    pub in_buf : h.connection.in_buf ≡ []
    pub protocol : h.connection.protocol ≡ some (http none)

  module _ (app : Application) where
    drop-length : (bytes : Bytes) → drop (length bytes) bytes ≡ []
    drop-length [] = refl
    drop-length (b ∷ bytes) = drop-length bytes

    take_in-responded :
        (c : Connection) (response : Bytes)
        → Responded response
            (take_in env app c (received_by_http (responded response (length c.in_buf))))
    unfolding take_in
    take_in-responded c response = record {
      events = refl;
      leaving = refl;
      in_buf = drop-length c.in_buf;
      protocol = refl;
    }

    finish-Responded :
        (flags : Flags) (response : Bytes) (h : Handled)
        → Responded response h
        → Responded response (finish flags h)
    finish-Responded flags response h r =
        let (protocol, buffer, events, leaving) =
          finish-keeps flags h.connection h.events h.leaving in
        record {
          events = events ∙ r.events;
          leaving = leaving ∙ r.leaving;
          in_buf = buffer ∙ r.in_buf;
          protocol = protocol ∙ r.protocol;
        }

    -- The event makes one call, on all bytes that are there.
    pub on_event-http :
        (flags : Flags) (answers : List RecvAnswer) (c : Connection) (header : Option Header)
        → IsRead flags answers
        → c.protocol ≡ some (http header)
        → let all = c.in_buf ++ bytes_read answers in
          on_event env app flags answers c
          ≡ finish flags (
              take_in env app
                (record c { in_buf = all })
                (received_by_http (on_data_received env header all)))
    unfolding on_event on_readable protocol_received
    on_event-http flags answers c header r is_http =
        ap
          (λ b.
            if b then hang_up app c else finish flags (read_if env app flags.readable answers c))
          r.there
        ∙ ap (λ b. finish flags (read_if env app b answers c)) r.readable
        ∙ ap (λ p. finish flags (on_readable env app answers c p)) is_http
        ∙ ap (λ t. finish flags (hand_over env app c (http header) t))
            (read_loop-eq answers c.in_buf r.succeeds)

    -- The last bytes of a request, behind those that were kept: a client wrote it, its body is
    -- complete, and there is a response.
    pub record IsExchange (in_buf : Bytes) (flags : Flags) (answers : List RecvAnswer)
        (response : Bytes) : Type 0 where
      pub method : Bytes
      pub target : Bytes
      pub version : Bytes
      pub fields : List (Bytes × Bytes)
      pub header : Header
      pub body : Bytes
      pub asks : IsRequest method target version fields header
      pub full : length body ≡ header.content_length
      pub dispatched : Dispatched header body response
      pub read : IsRead flags answers
      pub all :
          in_buf ++ bytes_read answers ≡ request_head method target version fields ++ (crlf ++ body)

    -- The event in one call, and what is done with its outcome.
    pub on_event-IsExchange :
        (response : Bytes) (flags : Flags) (answers : List RecvAnswer) (c : Connection)
        → c.protocol ≡ some (http none)
        → IsExchange c.in_buf flags answers response
        → let all = c.in_buf ++ bytes_read answers in
          on_event env app flags answers c
          ≡ finish flags (
              take_in env app
                (record c { in_buf = all })
                (received_by_http (responded response (length all))))
    on_event-IsExchange response flags answers c is_http e =
        let read : Connection = record c { in_buf = c.in_buf ++ bytes_read answers } in
        let answered =
          ap (on_data_received env none) e.all
          ∙ on_data_received-request e.asks e.body env e.full
          ∙ served-Dispatched _ e.dispatched
          ∙ ap (λ bytes. responded response (length bytes)) (sym e.all) in
        on_event-http flags answers c none e.read is_http
        ∙ ap (λ o. finish flags (take_in env app read (received_by_http o))) answered

    pub on_event-Responded :
        (response : Bytes) (flags : Flags) (answers : List RecvAnswer) (c : Connection)
        → c.protocol ≡ some (http none)
        → IsExchange c.in_buf flags answers response
        → Responded response (on_event env app flags answers c)
    on_event-Responded response flags answers c is_http e =
        rw (on_event-IsExchange response flags answers c is_http e) (
          finish-Responded flags response _
            (take_in-responded (record c { in_buf = c.in_buf ++ bytes_read answers }) response))
