-- ===== src/Connection/KeepAlive.antt =====
-- Requests one after the other on a connection that is kept alive.
use cndl.Base.{
  ◌≡◌, refl, sym, true, false, Bool, List, [], ◌∷◌, Bytes, map, none, some, if◌then◌else◌,
}
use cndl.Websocket.Types.{Event, write, nothing}
use cndl.Http.Types.{Surroundings}
use cndl.Connection.Queue.{IsValid}
use cndl.Connection.Transmit.{Output}
use cndl.Connection.Protocols.{Protocol, http}
use cndl.Connection.Handler.{
  RecvAnswer, Connection, Flags, returns, Handled, Application, deliver, take_in, on_output, rearm,
  finish, on_event,
}
use cndl.Connection.Calls.{Sends, Fits64}
use cndl.Connection.Events.{SocketEvent, goes_on, followed_by, run_events, run_events-Sends}
use cndl.Connection.Open.{IsOpen, write-IsOpen, on_writable-IsOpen}
use cndl.Connection.Served.{Responded, IsExchange, on_event-IsExchange, on_event-Responded}

rearm-IsOpen : (c : Connection) → IsOpen c.output → IsOpen (rearm c).output
unfolding rearm
rearm-IsOpen c v = record { socket = v.socket; jobs = v.jobs }

on_output-IsOpen :
    (writable : Bool) (output : Output) (in_buf : Bytes) (protocol : Protocol)
    → let c : Connection = record { output = output; in_buf = in_buf; protocol = some protocol } in
      IsOpen output → IsOpen (if writable then on_output c else c).output
unfolding on_output
on_output-IsOpen true output in_buf protocol v = on_writable-IsOpen output v
on_output-IsOpen false output in_buf protocol v = v

goes_on-eq-true :
    (h : Handled) → h.leaving ≡ returns → IsOpen h.connection.output → goes_on h ≡ true
goes_on-eq-true h back v = rw back v.socket

finish-IsOpen :
    (flags : Flags) (output : Output) (in_buf : Bytes) (protocol : Protocol) (events : List Event)
    → IsOpen output
    → IsOpen
        (finish flags (record {
          connection = record { output = output; in_buf = in_buf; protocol = some protocol };
          events = events;
          leaving = returns;
        })).connection.output
unfolding finish
finish-IsOpen flags output in_buf protocol events v =
    rearm-IsOpen _ (on_output-IsOpen flags.writable output in_buf protocol v)

module _ {Pattern : Type 0} (env : Surroundings Pattern) (app : Application) where
  -- Every event brings the last bytes of a request, the first one behind those that were kept, and
  -- the responses are these.
  abbrev pub Exchanges : Bytes → List SocketEvent → List Bytes → Type 0
  Exchanges in_buf [] [] = in_buf ≡ []
  Exchanges in_buf ((flags, answers) ∷ events) (response ∷ responses) =
      IsExchange env app in_buf flags answers response × Exchanges [] events responses
  Exchanges in_buf _ _ = ⊥

  on_event-IsOpen :
      (response : Bytes) (flags : Flags) (answers : List RecvAnswer) (c : Connection)
      → c.protocol ≡ some (http none)
      → IsExchange env app c.in_buf flags answers response
      → IsOpen c.output
      → IsOpen (on_event env app flags answers c).connection.output
  unfolding take_in deliver
  on_event-IsOpen response flags answers c is_http e v =
      rw (on_event-IsExchange env app response flags answers c is_http e)
        (finish-IsOpen flags _ _ (http none) _ (write-IsOpen response c.output v))

  -- What is left behind the events: the responses were written in their order and nothing else, the
  -- last call returned, the buffer is empty, the next request is waited for, and the socket is open.
  pub record Kept (responses : List Bytes) (h : Handled) : Type 0 where
    pub events : h.events ≡ map (λ response. write response nothing) responses
    pub leaving : h.leaving ≡ returns
    pub in_buf : h.connection.in_buf ≡ []
    pub protocol : h.connection.protocol ≡ some (http none)
    pub output : IsOpen h.connection.output

  Kept-followed_by :
      (response : Bytes) (responses : List Bytes) (h later : Handled)
      → goes_on h ≡ true
      → Responded env response h
      → Kept responses later
      → Kept (response ∷ responses) (followed_by h later)
  Kept-followed_by response responses h later on r k = rw on (record {
    events = rw (r.events, k.events) refl;
    leaving = k.leaving;
    in_buf = k.in_buf;
    protocol = k.protocol;
    output = k.output;
  })

  Kept-behind :
      (events : List SocketEvent) (responses : List Bytes) (c : Connection)
      → c.protocol ≡ some (http none)
      → IsOpen c.output
      → Exchanges c.in_buf events responses
      → Kept responses (run_events env app events c)
  unfolding run_events
  Kept-behind [] [] c is_http v h = record {
    events = refl;
    leaving = refl;
    in_buf = h;
    protocol = is_http;
    output = v;
  }
  Kept-behind [] (response ∷ responses) c is_http v h = absurd h
  Kept-behind ((flags, answers) ∷ events) [] c is_http v h = absurd h
  Kept-behind ((flags, answers) ∷ events) (response ∷ responses) c is_http v h =
      let now = on_event env app flags answers c in
      let done = on_event-Responded env app response flags answers c is_http h.0 in
      let now_open = on_event-IsOpen response flags answers c is_http h.0 v in
      let rest = coe 0 1 (i. Exchanges (sym done.in_buf i) events responses) h.1 in
      Kept-followed_by response responses now (run_events env app events now.connection)
        (goes_on-eq-true now done.leaving now_open) done
        (Kept-behind events responses now.connection done.protocol now_open rest)

  -- A client writes requests without an upgrade to an open connection, each of which comes to its end
  -- with one event of the socket, however its bytes are cut into reads; there is a response for each,
  -- and none is for a version that ends the connection. Then the connection makes one call for each
  -- request, which writes its response, in the order of the requests, and waits for the next one with
  -- an empty buffer and an open socket. The bytes that the socket has taken, followed by those that
  -- wait, are those from before and behind them all responses. The first request may have its first
  -- bytes in the buffer already; no callback waits in the queue, no call of `::send` is taken to fail,
  -- and the bytes written in all to be fewer than 2^64.
  pub run_events-Kept :
      (events : List SocketEvent) (responses : List Bytes) (c : Connection)
      → c.protocol ≡ some (http none)
      → IsOpen c.output
      → IsValid c.output
      → Exchanges c.in_buf events responses
      → Fits64 app c.output (map (λ response. write response nothing) responses)
      → Kept responses (run_events env app events c)
        × Sends app c.output
            (map (λ response. write response nothing) responses)
            (run_events env app events c).connection.output
  run_events-Kept events responses c is_http v valid h fits =
      let kept = Kept-behind events responses c is_http v h in
      (kept, rw kept.events at (run_events-Sends env app events c valid (rw kept.events fits)))
