-- ===== src/Connection/Handler.antt =====
-- `Pimpl` of ConnectionHandler.cpp: the reads, the change of the protocol, the event flags and
-- `close`.
use cndl.Base.{
  ℕ, zero, suc, ◌-◌, ◌==◌, Bool, true, false, not, List, [], ◌∷◌, ◌++◌, Bytes, length, take, drop,
  ltb, if◌then◌else◌, Option, none, some, Exception, length_error,
}
use cndl.Websocket.Types.{Event, AfterSent, write}
use cndl.Http.Types.{Surroundings}
use cndl.Connection.Transmit.{Output, is_empty, on_writable, write as transmit}
use cndl.Connection.Protocols.{
  Protocol, http, Change, hangs, becomes, leaves, Received, protocol_received, peer_close,
}

-- What a call of `::recv` answers: bytes, none of them at the end of the stream; or it would block;
-- or it fails with another error.
pub data RecvAnswer : Type 0 where
  gives : Bytes → RecvAnswer
  blocks breaks : RecvAnswer

-- The members of `Pimpl`; the socket is open as long as `output.is_open` tells.
pub record Connection : Type 0 where
  pub output : Output
  pub in_buf : Bytes
  pub protocol : Option Protocol

-- The flags of an event: `EPOLLERR`, `EPOLLHUP` or `EPOLLRDHUP`; `EPOLLIN`; `EPOLLOUT`.
pub record Flags : Type 0 where
  pub hung_up : Bool
  pub readable : Bool
  pub writable : Bool

-- How a call of `operator()` ends.
pub data Leaving : Type 0 where
  returns never_returns : Leaving
  throws : Exception → Leaving

-- The connection behind the call, the calls of the protocol, and the end.
pub record Handled : Type 0 where
  pub connection : Connection
  pub events : List Event
  pub leaving : Leaving

abbrev pub read_size : ℕ
read_size = 4096

abbrev pub zeros : ℕ → Bytes
zeros zero = []
zeros (suc n) = 0 ∷ zeros n

-- The loop over `::recv`: the buffer, and the exception of `resize`. With an error the size of the
-- buffer falls by one, and for an empty one it is the largest of all. Behind the list it would block.
unfoldable pub read_loop : List RecvAnswer → Bytes → Bytes × Option Exception
read_loop [] in_buf = (in_buf, none)
read_loop (blocks ∷ answers) in_buf = (in_buf, none)
read_loop (breaks ∷ answers) in_buf =
    if length in_buf == 0
    then (zeros read_size, some length_error)
    else (take (length in_buf - 1) in_buf, none)
read_loop (gives bytes ∷ answers) in_buf =
    let chunk = take read_size bytes in
    let more = read_loop answers (in_buf ++ chunk) in
    if ltb (length chunk) read_size then (in_buf ++ chunk, none) else more

-- What an application writes to the connection from its handlers.
abbrev pub Application : Type 0
Application = Event → List (Bytes × AfterSent)

abbrev pub write_all : List (Bytes × AfterSent) → Output → Output
write_all [] o = o
write_all ((bytes, cb) ∷ rest) o = write_all rest (transmit bytes cb o)

-- The writes of a call that the protocol makes.
abbrev pub writes_of : Application → Event → List (Bytes × AfterSent)
writes_of app (write bytes cb) = (bytes, cb) ∷ []
writes_of app e = app e

unfoldable pub deliver : Application → List Event → Output → Output
deliver app [] o = o
deliver app (e ∷ events) o = deliver app events (write_all (writes_of app e) o)

-- `close`
unfoldable pub close : Connection → Connection
close c = record c { output = record c.output { is_open = false } }

abbrev pub change_protocol : Change → Protocol → Option Protocol
change_protocol (becomes p) protocol = p
change_protocol _ protocol = some protocol

abbrev pub leaving_of : Change → Leaving
leaving_of hangs = never_returns
leaving_of (leaves e) = throws e
leaving_of _ = returns

abbrev pub close_unless : Option Protocol → Connection → Connection
close_unless none c = close c
close_unless (some protocol) c = c

-- The branch on `EPOLLOUT`: without a protocol the socket is closed.
unfoldable pub on_output : Connection → Connection
on_output c = close_unless c.protocol (record c { output = on_writable c.output })

-- `modFD`, if the socket is still open: `EPOLLOUT` is armed as long as a job waits.
unfoldable pub rearm : Connection → Connection
rearm c = record c {
  output = record c.output {
    armed = if c.output.is_open then not (is_empty c.output.transmit_jobs) else c.output.armed;
  };
}

unfoldable pub finish : Flags → Handled → Handled
finish flags h = elim h.leaving [
  | returns ↦ record h {
    connection = rearm (if flags.writable then on_output h.connection else h.connection);
  }
  | _ ↦ h
]

-- `EPOLLERR`, `EPOLLHUP` and `EPOLLRDHUP`: the protocol is told and the socket is closed.
unfoldable pub hang_up : Application → Connection → Handled
hang_up app c =
    let events = peer_close c.protocol in
    record {
      connection = close (record c { output = deliver app events c.output });
      events = events;
      leaving = returns;
    }

module _ {Pattern : Type 0} (env : Surroundings Pattern) (app : Application) where
  -- The bytes consumed are erased and the protocol is changed, unless the call does not return.
  unfoldable pub take_in : Connection → Received → Handled
  take_in c r =
      let leaving = leaving_of r.change in
      let output = deliver app r.events c.output in
      record {
        connection = elim leaving [
          | returns ↦ record {
            output = output;
            in_buf = drop r.consumed c.in_buf;
            protocol = change_protocol r.change r.protocol;
          }
          | _ ↦ record c { output = output; protocol = some r.protocol }
        ];
        events = r.events;
        leaving = leaving;
      }

  abbrev pub hand_over : Connection → Protocol → Bytes × Option Exception → Handled
  hand_over c protocol (in_buf, some e) = record {
    connection = record c { in_buf = in_buf };
    events = [];
    leaving = throws e;
  }
  hand_over c protocol (in_buf, none) =
      take_in (record c { in_buf = in_buf }) (protocol_received env protocol in_buf)

  -- The branch on `EPOLLIN`.
  unfoldable pub on_readable : List RecvAnswer → Connection → Option Protocol → Handled
  on_readable answers c none = record { connection = c; events = []; leaving = returns }
  on_readable answers c (some protocol) = hand_over c protocol (read_loop answers c.in_buf)

  abbrev pub read_if : Bool → List RecvAnswer → Connection → Handled
  read_if true answers c = on_readable answers c c.protocol
  read_if false answers c = record { connection = c; events = []; leaving = returns }

  -- `operator()(flags)`, with the answers of `::recv`.
  unfoldable pub on_event : Flags → List RecvAnswer → Connection → Handled
  on_event flags answers c =
      if flags.hung_up then hang_up app c else finish flags (read_if flags.readable answers c)

-- The constructor, for the output of a socket.
abbrev pub new_connection : Output → Connection
new_connection output = record { output = output; in_buf = []; protocol = some (http none) }
