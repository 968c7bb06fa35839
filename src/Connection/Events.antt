-- ===== src/Connection/Events.antt =====
-- A connection over a sequence of events of its socket.
use cndl.Base.{Bool, false, List, [], ◌∷◌, ◌++◌, if◌then◌else◌, Bool-cases, inl, inr}
use cndl.Http.Types.{Surroundings}
use cndl.Connection.Queue.{IsValid}
use cndl.Connection.Handler.{RecvAnswer, Connection, Flags, returns, Handled, Application, on_event}
use cndl.Connection.Calls.{Sends, Fits64}
use cndl.Connection.Sends.{Fits64-append, Sends-trans, Sends-nil, on_event-Sends}

-- What the socket tells: the flags, and the answers to the calls of `::recv`.
abbrev pub SocketEvent : Type 0
SocketEvent = Flags × List RecvAnswer

-- A socket that is closed has no more events.
abbrev pub goes_on : Handled → Bool
goes_on h = elim h.leaving [ returns ↦ h.connection.output.is_open | _ ↦ false ]

abbrev pub followed_by : Handled → Handled → Handled
followed_by h later = if goes_on h then record later { events = h.events ++ later.events } else h

module _ {Pattern : Type 0} (env : Surroundings Pattern) (app : Application) where
  unfoldable pub run_events : List SocketEvent → Connection → Handled
  run_events [] c = record { connection = c; events = []; leaving = returns }
  run_events ((flags, answers) ∷ later) c =
      let h = on_event env app flags answers c in followed_by h (run_events later h.connection)

  -- Over any sequence of events of the socket, with all that the protocols call and the application
  -- answers, the bytes that the socket has taken, followed by those that wait, are those from before
  -- and behind them the bytes of all writes in the order of the calls, and so are the callbacks; the
  -- count of the bytes that wait stays right. No call of `::send` is taken to fail, and the bytes
  -- written in all to be fewer than 2^64.
  pub run_events-Sends :
      (socket_events : List SocketEvent) (c : Connection)
      → IsValid c.output
      → Fits64 app c.output (run_events socket_events c).events
      → Sends app c.output
          (run_events socket_events c).events
          (run_events socket_events c).connection.output
  unfolding run_events
  run_events-Sends [] c v h = Sends-nil app c.output v
  run_events-Sends ((flags, answers) ∷ rest) c v h =
      let now = on_event env app flags answers c in
      let later = run_events rest now.connection in
      elim (Bool-cases (goes_on now)) [
        | inl more ↦ rw more (
            let (fits, fits_later) =
              Fits64-append app c.output now.connection.output now.events later.events
                (rw more at h) in
            let first = on_event-Sends app env flags answers c v fits in
            Sends-trans app c.output now.connection.output later.connection.output now.events
              later.events first (run_events-Sends rest now.connection first.0 (fits_later first)))
        | inr over ↦ rw over (on_event-Sends app env flags answers c v (rw over at h))
      ]
