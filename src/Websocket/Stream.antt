-- ===== src/Websocket/Stream.antt =====
-- The receive loop over a whole buffer: it ends, and it does the same however the stream is cut.
use cndl.Base.{
  ℕ, zero, suc, ◌+◌, ◌≤◌, ◌<◌, ◌≡◌, ◌≢◌, refl, ap, ◌⊎◌, inl, inr, List, [], ◌++◌, Bytes, length,
  Result, ok, err, arith, length-drop, append_assoc, codes,
}
use mathlib.Core.Path.{fun_ext}
use cndl.Websocket.Types.{OpCode, protocol_error, Websocket, Event, Message}
use cndl.Websocket.Send.{close}
use cndl.Websocket.Frame.{Frame, Reading, incomplete, unmasked, complete, read_frame}
use cndl.Websocket.Prefix.{Behind, read_frame-Behind}
use cndl.Websocket.Receive.{
  Ending, waits, stops, stuck, throws, Outcome, closing, handle_fragment, handle_final,
  handle_frame, and_then, round, receive_loop, on_data_received,
}

pub Ending-cases : (e : Ending) → (e ≡ waits) ⊎ (e ≢ waits)
Ending-cases waits = inl refl
Ending-cases stops = inr (λ e. cc)
Ending-cases stuck = inr (λ e. cc)
Ending-cases (throws x) = inr (λ e. cc)

-- What the call before did, put in front.
abbrev pub prepend : List Event → ℕ → Outcome → Outcome
prepend events n later = record later {
  events = events ++ later.events;
  consumed = n + later.consumed;
}

pub and_then_waits :
    (n : ℕ) (o : Outcome) (rest : Websocket → Outcome)
    → o.ending ≡ waits
    → and_then n o rest ≡ prepend o.events n (rest o.socket)
unfolding and_then
and_then_waits n o rest e = ground arith

pub and_then_ends :
    (n : ℕ) (o : Outcome) (rest : Websocket → Outcome)
    → o.ending ≢ waits
    → and_then n o rest ≡ record o { consumed = n }
unfolding and_then
and_then_ends n o rest ne = ground arith

closing-ne-stuck : (ws : Websocket) (r : Result (List Event)) → (closing ws r).ending ≢ stuck
closing-ne-stuck ws (ok x) e = cc
closing-ne-stuck ws (err x) e = cc

handle_fragment-ne-stuck :
    (ws : Websocket) (frame : Frame) → (handle_fragment ws frame).ending ≢ stuck
unfolding handle_fragment
handle_fragment-ne-stuck ws frame e = ground (
  arith,
  closing-ne-stuck ws
      (close ws protocol_error (Message.text (codes "unterminated fragmented message"))),
)

handle_final-ne-stuck :
    (ws : Websocket) (op : OpCode) (payload : Bytes) → (handle_final ws op payload).ending ≢ stuck
unfolding handle_final
handle_final-ne-stuck ws OpCode.close payload = closing-ne-stuck ws _
handle_final-ne-stuck ws _ payload = λ e. cc

handle_frame-ne-stuck : (ws : Websocket) (frame : Frame) → (handle_frame ws frame).ending ≢ stuck
unfolding handle_frame
handle_frame-ne-stuck ws frame e =
    ground (
      arith,
      handle_fragment-ne-stuck ws frame,
      handle_final-ne-stuck ws frame.opcode frame.payload,
    )

pub prepend-nil : (o : Outcome) → prepend [] 0 o ≡ o
prepend-nil o = ground arith

pub prepend-prepend :
    (xs ys : List Event) (m n : ℕ) (o : Outcome)
    → prepend xs m (prepend ys n o) ≡ prepend (xs ++ ys) (m + n) o
prepend-prepend xs ys m n o = ground (arith, append_assoc xs ys o.events)

-- More rounds than bytes change nothing.
module _ (f g : ℕ) (v : Bytes) (ws : Websocket) where
  round-eq :
      (x : Result Reading)
      → read_frame v ≡ x
      → length v ≤ f
      → length v ≤ g
      → ((ws' : Websocket) (u : Bytes)
          → length u < f
          → length u < g
          → receive_loop f ws' u ≡ receive_loop g ws' u)
      → round (receive_loop f) ws x ≡ round (receive_loop g) ws x
  unfolding round
  round-eq (err e) h p q ih = refl
  round-eq (ok incomplete) h p q ih = refl
  round-eq (ok unmasked) h p q ih = refl
  round-eq (ok (complete frame n u)) h p q ih =
      let (size, b) = read_frame-Behind v h in
      let shorter : length u < length v = omega (arith, ap length b.1, length-drop n v) in
      ap (and_then n (handle_frame ws frame))
        (fun_ext (λ ws'. ih ws' u (omega arith) (omega arith)))

pub receive_loop-enough :
    (f g : ℕ) (ws : Websocket) (v : Bytes)
    → length v < f
    → length v < g
    → receive_loop f ws v ≡ receive_loop g ws v
unfolding receive_loop
receive_loop-enough zero g ws v p q = absurd (omega arith)
receive_loop-enough (suc f) zero ws v p q = absurd (omega arith)
receive_loop-enough (suc f) (suc g) ws v p q =
    round-eq f g v ws (read_frame v) refl (omega arith) (omega arith) (receive_loop-enough f g)

-- What the code reports as consumed lies in the buffer, and the loop ends by itself.
abbrev pub IsSound : Bytes → Outcome → Type 0
IsSound v o = (o.consumed ≤ length v) × (o.ending ≢ stuck)

closing-IsSound : (ws : Websocket) (v : Bytes) (r : Result (List Event)) → IsSound v (closing ws r)
closing-IsSound ws v (ok x) = (omega arith, λ e. cc)
closing-IsSound ws v (err x) = (omega arith, λ e. cc)

and_then-IsSound :
    (v u : Bytes) (n : ℕ) (o : Outcome) (rest : Websocket → Outcome)
    → Behind n v u
    → o.ending ≢ stuck
    → IsSound u (rest o.socket)
    → IsSound v (and_then n o rest)
and_then-IsSound v u n o rest b ne later = elim (Ending-cases o.ending) [
  | inl w ↦ rw (and_then_waits n o rest w) (omega (arith, ap length b.1, length-drop n v), later.1)
  | inr x ↦ rw (and_then_ends n o rest x) (b.0, ne)
]

module _ (f : ℕ) (v : Bytes) (ws : Websocket) where
  round-IsSound :
      (x : Result Reading)
      → read_frame v ≡ x
      → length v ≤ f
      → ((ws' : Websocket) (u : Bytes) → length u < f → IsSound u (receive_loop f ws' u))
      → IsSound v (round (receive_loop f) ws x)
  unfolding round
  round-IsSound (err e) h p ih = (omega arith, λ e. cc)
  round-IsSound (ok incomplete) h p ih = (omega arith, λ e. cc)
  round-IsSound (ok unmasked) h p ih = closing-IsSound ws v _
  round-IsSound (ok (complete frame n u)) h p ih =
      let (size, b) = read_frame-Behind v h in
      let shorter : length u < f = omega (arith, ap length b.1, length-drop n v) in
      and_then-IsSound v u n (handle_frame ws frame) _ b (handle_frame-ne-stuck ws frame)
        (ih _ u shorter)

receive_loop-IsSound :
    (f : ℕ) (ws : Websocket) (v : Bytes) → length v < f → IsSound v (receive_loop f ws v)
unfolding receive_loop
receive_loop-IsSound zero ws v p = absurd (omega arith)
receive_loop-IsSound (suc f) ws v p =
    round-IsSound f v ws (read_frame v) refl (omega arith) (receive_loop-IsSound f)

-- On every buffer the loop of `onDataReceived` comes to an end of its own, and the number of bytes
-- that it reports as consumed is at most the number of bytes in the buffer.
pub on_data_received-IsSound :
    (ws : Websocket) (v : Bytes)
    → ((on_data_received ws v).consumed ≤ length v) × ((on_data_received ws v).ending ≢ stuck)
unfolding on_data_received
on_data_received-IsSound ws v = receive_loop-IsSound (length v + 1) ws v (omega arith)
