-- ===== src/Connection/Follows.antt =====
-- What an event of the socket does to a websocket, by the outcome of the call on it.
use cndl.Base.{
  ℕ, ◌+◌, ◌≤◌, ◌≡◌, refl, sym, ap, ◌∙◌, Bool, true, false, inl, inr, Bool-cases, List, [], ◌∷◌,
  ◌++◌, append-nil, append_assoc, Bytes, All, length, take, drop, drop-add, drop-append_le, ltb,
  if◌then◌else◌, Option, none, some,
}
use cndl.Websocket.Types.{Event}
use cndl.Websocket.Receive.{Outcome}
use cndl.Websocket.Stream.{prepend}
use cndl.Connection.Transmit.{Output}
use cndl.Connection.Protocols.{Protocol, websocket, change_of_websocket}
use cndl.Connection.Handler.{
  RecvAnswer, gives, blocks, breaks, Connection, Flags, Leaving, returns, never_returns, throws,
  Handled, read_size, read_loop, change_protocol, leaving_of, on_output, close, rearm, finish,
}

-- The bytes of the reads of one event.
unfoldable pub bytes_read : List RecvAnswer → Bytes
bytes_read [] = []
bytes_read (blocks ∷ answers) = []
bytes_read (breaks ∷ answers) = []
bytes_read (gives bytes ∷ answers) =
    let chunk = take read_size bytes in
    let more = bytes_read answers in if ltb (length chunk) read_size then chunk else chunk ++ more

abbrev pub Succeeds : RecvAnswer → Type 0
Succeeds breaks = ⊥
Succeeds _ = Unit

pub read_loop-eq :
    (answers : List RecvAnswer) (in_buf : Bytes)
    → All Succeeds answers
    → read_loop answers in_buf ≡ (in_buf ++ bytes_read answers, none)
unfolding read_loop bytes_read
read_loop-eq [] in_buf h = ap (λ t. (t, none)) (sym (append-nil in_buf))
read_loop-eq (blocks ∷ answers) in_buf h = ap (λ t. (t, none)) (sym (append-nil in_buf))
read_loop-eq (breaks ∷ answers) in_buf h = absurd h.0
read_loop-eq (gives bytes ∷ answers) in_buf h =
    let chunk = take read_size bytes in
    elim (Bool-cases (ltb (length chunk) read_size)) [
      | inl last ↦ rw last
      | inr more ↦ rw more (
          read_loop-eq answers (in_buf ++ chunk) h.1
          ∙ ap (λ t. (t, none)) (append_assoc in_buf chunk (bytes_read answers)))
    ]

pub on_output-keeps :
    (writable : Bool) (output : Output) (in_buf : Bytes) (protocol : Option Protocol)
    → let c : Connection = record { output = output; in_buf = in_buf; protocol = protocol } in
      let d = if writable then on_output c else c in (d.protocol ≡ protocol) × (d.in_buf ≡ in_buf)
unfolding on_output close
on_output-keeps false output in_buf protocol = (refl, refl)
on_output-keeps true output in_buf none = (refl, refl)
on_output-keeps true output in_buf (some protocol) = (refl, refl)

pub finish-keeps :
    (flags : Flags) (c : Connection) (events : List Event) (leaving : Leaving)
    → let h = finish flags (record { connection = c; events = events; leaving = leaving }) in
      (h.connection.protocol ≡ c.protocol)
      × (h.connection.in_buf ≡ c.in_buf)
      × (h.events ≡ events)
      × (h.leaving ≡ leaving)
unfolding finish rearm on_output close
finish-keeps flags c events never_returns = (refl, refl, refl, refl)
finish-keeps flags c events (throws e) = (refl, refl, refl, refl)
finish-keeps flags c events returns =
    let kept = on_output-keeps flags.writable c.output c.in_buf c.protocol in
    (kept.0, kept.1, refl, refl)

-- What an event does to a websocket and to its buffer, by the outcome of the one call on it.
pub record Follows (o : Outcome) (in_buf : Bytes) (h : Handled) : Type 0 where
  pub events : h.events ≡ o.events
  pub leaving : h.leaving ≡ leaving_of (change_of_websocket o.ending)
  pub returned :
      leaving_of (change_of_websocket o.ending) ≡ returns
      → (h.connection.protocol
          ≡ change_protocol (change_of_websocket o.ending) (websocket o.socket))
        × (h.connection.in_buf ≡ drop o.consumed in_buf)

pub finish-Follows :
    (flags : Flags) (o : Outcome) (in_buf : Bytes) (h : Handled)
    → Follows o in_buf h
    → Follows o in_buf (finish flags h)
finish-Follows flags o in_buf h f =
    let (protocol, buffer, events, leaving) = finish-keeps flags h.connection h.events h.leaving in
    record {
      events = events ∙ f.events;
      leaving = leaving ∙ f.leaving;
      returned = λ r. (protocol ∙ (f.returned r).0, buffer ∙ (f.returned r).1);
    }

pub retell :
    (h : Handled) {o p : Outcome} {a b : Bytes} → o ≡ p → a ≡ b → Follows o a h → Follows p b h
retell h e e' f = coe 0 1 (i. Follows (e i) (e' i) h) f

-- A call that is told by one outcome behind another.
pub Follows-prepend :
    (events : List Event) (n : ℕ) (o : Outcome) (v w u : Bytes) (whole second : Handled)
    → Follows (prepend events n o) (v ++ w) whole
    → Follows o u second
    → u ≡ drop n v ++ w
    → n ≤ length v
    → second.leaving ≡ returns
    → (whole.events ≡ events ++ second.events)
      × (whole.leaving ≡ returns)
      × (whole.connection.protocol ≡ second.connection.protocol)
      × (whole.connection.in_buf ≡ second.connection.in_buf)
Follows-prepend events n o v w u whole second g f rest fits back =
    let returned = sym f.leaving ∙ back in
    let (protocol, left) = g.returned returned in
    let (protocol2, left2) = f.returned returned in
    let behind : drop (n + o.consumed) (v ++ w) ≡ drop o.consumed u =
      drop-add o.consumed n (v ++ w)
      ∙ ap (drop o.consumed) (drop-append_le n v w fits ∙ sym rest) in
    (
      g.events ∙ ap (λ t. events ++ t) (sym f.events),
      g.leaving ∙ returned,
      protocol ∙ sym protocol2,
      left ∙ behind ∙ sym left2,
    )
