-- ===== src/Connection/Sends.antt =====
-- One event of the socket puts the writes that come of it behind those from before.
use cndl.Base.{
  ℕ, ◌≡◌, refl, sym, ap, ◌∙◌, Bool, true, false, inl, inr, Bool-cases, List, [], ◌++◌, Bytes,
  length, arith, append-nil, append_assoc, length-append, if◌then◌else◌, Option, none, some,
  Exception,
}
use cndl.Websocket.Types.{Event, AfterSent}
use cndl.Http.Types.{Surroundings}
use cndl.Connection.Transmit.{Output, on_writable}
use cndl.Connection.Queue.{IsValid}
use cndl.Connection.Fifo.{total, owed, Adds, on_writable-Adds}
use cndl.Connection.Schedule.{bytes_of, callbacks_of}
use cndl.Connection.Protocols.{
  Protocol, Change, stays, hangs, becomes, leaves, peer_close, protocol_received,
}
use cndl.Connection.Handler.{
  RecvAnswer, Connection, Flags, Leaving, returns, never_returns, throws, Application, close,
  take_in, hand_over, on_readable, close_unless, on_output, rearm, finish, hang_up, read_if,
  on_event, read_loop,
}
use cndl.Connection.Calls.{
  answered, bytes_of-append, callbacks_of-append, answered-append, Sends, Fits64, deliver-Sends,
}

Adds-trans :
    (o p q : Output) (b c : Bytes) (k l : List AfterSent)
    → Adds o b k p
    → Adds p c l q
    → Adds o (b ++ c) (k ++ l) q
Adds-trans o p q b c k l (v, t, w) (v', t', w') = (
  v',
  t' ∙ ap (λ x. x ++ c) t ∙ append_assoc (total o) b c,
  w' ∙ ap (λ x. x ++ l) w ∙ append_assoc (owed o) k l,
)

module _ (app : Application) where
  pub Sends-trans :
      (o p q : Output) (a b : List Event)
      → Sends app o a p
      → Sends app p b q
      → Sends app o (a ++ b) q
  Sends-trans o p q a b h k =
      rw
        (
          answered-append app a b,
          bytes_of-append (answered app a) (answered app b),
          callbacks_of-append (answered app a) (answered app b),
        )
        (Adds-trans o p q (bytes_of (answered app a)) _ (callbacks_of (answered app a)) _ h k)

  -- If all fits, the first calls fit, and the others fit behind them.
  pub Fits64-append :
      (o p : Output) (a b : List Event)
      → Fits64 app o (a ++ b)
      → Fits64 app o a × ((Sends app o a p → Fits64 app p b))
  Fits64-append o p a b h =
      let split = ap length (
        ap bytes_of (answered-append app a b)
        ∙ bytes_of-append (answered app a) (answered app b)) in
      let sum = length-append (bytes_of (answered app a)) (bytes_of (answered app b)) in
      (
        omega arith,
        λ s.
            let grown = ap length s.1 ∙ length-append (total o) (bytes_of (answered app a)) in
            omega arith,
      )

  pub Sends-nil : (o : Output) → IsValid o → Sends app o [] o
  Sends-nil o v = (v, sym (append-nil (total o)), sym (append-nil (owed o)))

  Sends-flush :
      (o p : Output) (events : List Event)
      → Sends app o events p
      → Sends app o events (on_writable p)
  Sends-flush o p events h =
      rw (sym (append-nil events))
        (Sends-trans o p (on_writable p) events [] h (on_writable-Adds p h.0))

  -- Whether `EPOLLOUT` is armed and whether the socket is open changes no bytes.
  Sends-flags :
      (o p : Output) (events : List Event) (armed is_open : Bool)
      → Sends app o events p
      → Sends app o events (record p { armed = armed; is_open = is_open })
  Sends-flags o p events armed is_open (v, t, w) =
      (record { fine = v.fine; fits = v.fits; size = v.size; bound = v.bound }, t, w)

  close_unless-Sends :
      (o : Output) (events : List Event) (protocol : Option Protocol) (c : Connection)
      → Sends app o events c.output
      → Sends app o events (close_unless protocol c).output
  unfolding close
  close_unless-Sends o events none c h = Sends-flags o c.output events c.output.armed false h
  close_unless-Sends o events (some protocol) c h = h

  on_output-Sends :
      (o : Output) (events : List Event) (writable : Bool) (c : Connection)
      → Sends app o events c.output
      → Sends app o events (if writable then on_output c else c).output
  unfolding on_output
  on_output-Sends o events false c h = h
  on_output-Sends o events true c h =
      close_unless-Sends o events c.protocol _ (Sends-flush o c.output events h)

  finish-Sends :
      (o : Output) (flags : Flags) (c : Connection) (events : List Event) (leaving : Leaving)
      → Sends app o events c.output
      → Sends app o events
          (finish flags
            (record { connection = c; events = events; leaving = leaving })).connection.output
  unfolding finish rearm
  finish-Sends o flags c events returns h =
      Sends-flags o _ events _ _ (on_output-Sends o events flags.writable c h)
  finish-Sends o flags c events never_returns h = h
  finish-Sends o flags c events (throws e) h = h

  finish-events :
      (flags : Flags) (c : Connection) (events : List Event) (leaving : Leaving)
      → (finish flags (record { connection = c; events = events; leaving = leaving })).events
        ≡ events
  unfolding finish
  finish-events flags c events returns = refl
  finish-events flags c events never_returns = refl
  finish-events flags c events (throws e) = refl

  module _ {Pattern : Type 0} (env : Surroundings Pattern) where
    take_in-Sends :
        (c : Connection) (protocol : Protocol) (events : List Event) (consumed : ℕ)
        (change : Change)
        → IsValid c.output
        → Fits64 app c.output events
        → let h = take_in env app c (record {
          protocol = protocol;
          events = events;
          consumed = consumed;
          change = change;
        }) in
          Sends app c.output events h.connection.output
    unfolding take_in
    take_in-Sends c protocol events consumed stays v h = deliver-Sends app events c.output v h
    take_in-Sends c protocol events consumed (becomes p) v h = deliver-Sends app events c.output v h
    take_in-Sends c protocol events consumed hangs v h = deliver-Sends app events c.output v h
    take_in-Sends c protocol events consumed (leaves e) v h = deliver-Sends app events c.output v h

    hand_over-Sends :
        (c : Connection) (protocol : Protocol) (read : Bytes × Option Exception)
        → IsValid c.output
        → let h = hand_over env app c protocol read in
          Fits64 app c.output h.events → Sends app c.output h.events h.connection.output
    unfolding take_in
    hand_over-Sends c protocol (in_buf, some e) v h = Sends-nil c.output v
    hand_over-Sends c protocol (in_buf, none) v h =
        let r = protocol_received env protocol in_buf in
        take_in-Sends (record c { in_buf = in_buf }) r.protocol r.events r.consumed r.change v h

    read_if-Sends :
        (readable : Bool) (answers : List RecvAnswer) (output : Output) (in_buf : Bytes)
        (protocol : Option Protocol)
        → IsValid output
        → let h =
            read_if env app readable answers
              (record { output = output; in_buf = in_buf; protocol = protocol }) in
          Fits64 app output h.events → Sends app output h.events h.connection.output
    unfolding on_readable
    read_if-Sends false answers output in_buf protocol v h = Sends-nil output v
    read_if-Sends true answers output in_buf none v h = Sends-nil output v
    read_if-Sends true answers output in_buf (some protocol) v h =
        hand_over-Sends (record { output = output; in_buf = in_buf; protocol = some protocol })
          protocol (read_loop answers in_buf) v h

    -- One event of the socket, whatever it is: the output stays in order, and the writes that come of
    -- the calls of the protocol are put behind.
    pub on_event-Sends :
        (flags : Flags) (answers : List RecvAnswer) (c : Connection)
        → IsValid c.output
        → Fits64 app c.output (on_event env app flags answers c).events
        → Sends app c.output
            (on_event env app flags answers c).events
            (on_event env app flags answers c).connection.output
    unfolding on_event finish
    on_event-Sends flags answers c v h = elim (Bool-cases flags.hung_up) [
      | inl gone ↦ rw gone (
          unfold hang_up close in
          Sends-flags c.output _ (peer_close c.protocol) _ false
            (deliver-Sends app (peer_close c.protocol) c.output v (rw gone at h)))
      | inr there ↦
          let r = read_if env app flags.readable answers c in
          let same = finish-events flags r.connection r.events r.leaving in
          rw (there, same)
            (finish-Sends c.output flags r.connection r.events r.leaving (
              read_if-Sends flags.readable answers c.output c.in_buf c.protocol v
                (rw (there, same) at h)))
    ]
