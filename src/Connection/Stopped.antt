-- ===== src/Connection/Stopped.antt =====
-- A connection whose protocol has ended (`ProtocolChange{nullptr}`).
use cndl.Base.{
  ◌≡◌, refl, ap, ◌∙◌, Bool, true, false, List, [], ◌∷◌, ◌++◌, Bytes, All, if◌then◌else◌, none,
  Bool-cases, inl, inr,
}
use cndl.Http.Types.{Surroundings}
use cndl.Connection.Transmit.{Output, on_writable}
use cndl.Connection.Protocols.{peer_close}
use cndl.Connection.Handler.{
  RecvAnswer, Connection, Flags, returns, Handled, Application, deliver, close, on_output,
  on_readable, rearm, finish, hang_up, on_event,
}
use cndl.Connection.Events.{SocketEvent, goes_on, run_events}

-- What such a connection keeps: no protocol, and the bytes that were received last.
abbrev pub IsStopped : Bytes → Connection → Type 0
IsStopped in_buf c = (c.protocol ≡ none) × (c.in_buf ≡ in_buf)

abbrev pub IsQuiet : Bytes → Handled → Type 0
IsQuiet in_buf h = IsStopped in_buf h.connection × (h.events ≡ []) × (h.leaving ≡ returns)

on_output-IsStopped :
    (writable : Bool) (output : Output) (in_buf : Bytes)
    → let c : Connection = record { output = output; in_buf = in_buf; protocol = none } in
      IsStopped in_buf (if writable then on_output c else c)
unfolding on_output close
on_output-IsStopped true output in_buf = (refl, refl)
on_output-IsStopped false output in_buf = (refl, refl)

if-true : (b : Bool) (x y : Handled) → b ≡ true → (if b then x else y) ≡ x
if-true true x y h = refl
if-true false x y h = absurd cc

module _ {Pattern : Type 0} (env : Surroundings Pattern) (app : Application) where
  on_event-fields :
      (hung_up readable writable : Bool) (answers : List RecvAnswer) (output : Output)
      (in_buf : Bytes)
      → IsQuiet in_buf (
          on_event env app
            (record { hung_up = hung_up; readable = readable; writable = writable })
            answers
            (record { output = output; in_buf = in_buf; protocol = none }))
  unfolding on_event hang_up peer_close deliver close finish rearm on_readable
  on_event-fields true readable writable answers output in_buf = ((refl, refl), refl, refl)
  on_event-fields false true writable answers output in_buf =
      (on_output-IsStopped writable output in_buf, refl, refl)
  on_event-fields false false writable answers output in_buf =
      (on_output-IsStopped writable output in_buf, refl, refl)

  on_event-IsQuiet :
      (flags : Flags) (answers : List RecvAnswer) (c : Connection)
      → c.protocol ≡ none
      → IsQuiet c.in_buf (on_event env app flags answers c)
  on_event-IsQuiet flags answers c stopped =
      rw stopped
        (on_event-fields flags.hung_up flags.readable flags.writable answers c.output c.in_buf)

  -- Once the protocol has ended nothing is handled any more: over any sequence of events of the socket
  -- no call is made, none of the bytes received later is read, and no protocol comes back.
  pub run_events-IsQuiet :
      (socket_events : List SocketEvent) (c : Connection)
      → c.protocol ≡ none
      → IsQuiet c.in_buf (run_events env app socket_events c)
  unfolding run_events
  run_events-IsQuiet [] c stopped = ((stopped, refl), refl, refl)
  run_events-IsQuiet ((flags, answers) ∷ rest) c stopped =
      let h = on_event env app flags answers c in
      let now = on_event-IsQuiet flags answers c stopped in
      let later = run_events-IsQuiet rest h.connection now.0.0 in
      elim (Bool-cases (goes_on h)) [
        | inl more ↦ rw more (
          (later.0.0, later.0.1 ∙ now.0.1),
          ap (λ t. t ++ (run_events env app rest h.connection).events) now.1 ∙ later.1,
          later.2,
        )
        | inr over ↦ rw over now
      ]

  closing_event :
      (readable : Bool) (answers : List RecvAnswer) (output : Output) (in_buf : Bytes)
      → on_event env app
          (record { hung_up = false; readable = readable; writable = true })
          answers
          (record { output = output; in_buf = in_buf; protocol = none })
        ≡ record {
          connection = record {
            output = record (on_writable output) { is_open = false };
            in_buf = in_buf;
            protocol = none;
          };
          events = [];
          leaving = returns;
        }
  unfolding on_event close finish rearm on_readable on_output
  closing_event true answers output in_buf = refl
  closing_event false answers output in_buf = refl

  quiet_event :
      (readable : Bool) (answers : List RecvAnswer) (output : Output) (in_buf : Bytes)
      → output.transmit_jobs ≡ []
      → output.is_open ≡ true
      → output.armed ≡ false
      → on_event env app
          (record { hung_up = false; readable = readable; writable = false })
          answers
          (record { output = output; in_buf = in_buf; protocol = none })
        ≡ record {
          connection = record { output = output; in_buf = in_buf; protocol = none };
          events = [];
          leaving = returns;
        }
  unfolding on_event close finish rearm on_readable on_output
  quiet_event true answers output in_buf nothing_left alive unarmed =
      rw (alive, nothing_left, unarmed)
  quiet_event false answers output in_buf nothing_left alive unarmed =
      rw (alive, nothing_left, unarmed)

  -- Without a protocol the first event with `EPOLLOUT` closes the socket, and no event follows it: what
  -- the socket does not take in that one flush is never sent, however much it is.
  pub run_events-closes :
      (flags : Flags) (answers : List RecvAnswer) (rest : List SocketEvent) (c : Connection)
      → c.protocol ≡ none
      → flags.hung_up ≡ false
      → flags.writable ≡ true
      → (run_events env app ((flags, answers) ∷ rest) c).connection.output
        ≡ record (on_writable c.output) { is_open = false }
  unfolding run_events
  run_events-closes flags answers rest c stopped there writable =
      rw (stopped, there, writable, closing_event flags.readable answers c.output c.in_buf)

  -- Without a protocol and with nothing left to send the connection stays open for good: until the peer
  -- hangs up, no event that the loop has asked for closes it.
  pub run_events-lingers :
      (socket_events : List SocketEvent) (c : Connection)
      → c.protocol ≡ none
      → c.output.transmit_jobs ≡ []
      → c.output.is_open ≡ true
      → c.output.armed ≡ false
      → All (λ e. (e.0.hung_up ≡ false) × (e.0.writable ≡ false)) socket_events
      → (run_events env app socket_events c).connection ≡ c
  unfolding run_events
  run_events-lingers [] c stopped nothing_left alive unarmed all = refl
  run_events-lingers ((flags, answers) ∷ rest) c stopped nothing_left alive unarmed all =
      let kept : Handled = record { connection = c; events = []; leaving = returns } in
      let e : on_event env app flags answers c ≡ kept =
        rw (stopped, all.0.0, all.0.1)
          (quiet_event flags.readable answers c.output c.in_buf nothing_left alive unarmed) in
      let later = run_events-lingers rest c stopped nothing_left alive unarmed all.1 in
      rw e (ap (λ h. h.connection) (if-true c.output.is_open _ kept alive) ∙ later)
