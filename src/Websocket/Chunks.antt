-- ===== src/Websocket/Chunks.antt =====
-- How the network cuts the stream is of no account, as long as no call ends by an exception.
use cndl.Base.{
  ℕ, zero, suc, ◌+◌, ◌≤◌, ◌<◌, ◌≡◌, ◌≢◌, refl, sym, ap, ◌∙◌, inl, inr, List, ◌++◌, Bytes, length,
  drop, Result, ok, err, arith, length-append, length-drop, drop-add,
}
use cndl.Websocket.Types.{Websocket, Event}
use cndl.Websocket.Frame.{Reading, incomplete, unmasked, complete, read_frame}
use cndl.Websocket.Prefix.{Behind, read_frame-append, read_frame-Behind}
use cndl.Websocket.Receive.{
  waits, Outcome, closing, handle_frame, and_then, round, receive_loop, on_data_received,
}
use cndl.Websocket.Stream.{
  Ending-cases, prepend, and_then_waits, and_then_ends, prepend-nil, prepend-prepend,
  receive_loop-enough,
}

closing-ne-waits : (ws : Websocket) (r : Result (List Event)) → (closing ws r).ending ≢ waits
closing-ne-waits ws (ok x) e = cc
closing-ne-waits ws (err x) e = cc

-- What is left to do after a call that waits: the unconsumed bytes, with the new ones behind.
abbrev Resumes : ℕ → Bytes → Bytes → Outcome → Outcome → Type 0
Resumes g v w first whole =
    first.ending ≡ waits
    → whole
      ≡ prepend first.events first.consumed
          (receive_loop g first.socket (drop first.consumed v ++ w))

Resumes-and_then :
    (g n : ℕ) (v u w : Bytes) (o : Outcome) (short long : Websocket → Outcome)
    → Behind n v u
    → Resumes g u w (short o.socket) (long o.socket)
    → Resumes g v w (and_then n o short) (and_then n o long)
Resumes-and_then g n v u w o short long b later h = elim (Ending-cases o.ending) [
  | inr x ↦ absurd (x (ap (λ (z : Outcome). z.ending) (sym (and_then_ends n o short x)) ∙ h))
  | inl e ↦
      let s = short o.socket in
      let waiting : s.ending ≡ waits =
        ap (λ (z : Outcome). z.ending) (sym (and_then_waits n o short e)) ∙ h in
      let behind : drop s.consumed u ≡ drop (n + s.consumed) v =
        rw b.1 (sym (drop-add s.consumed n v)) in
      rw (and_then_waits n o short e, and_then_waits n o long e, ← behind)
        (ap (prepend o.events n) (later waiting) ∙ prepend-prepend o.events s.events n s.consumed _)
]

module _ (f g top : ℕ) (v w : Bytes) (ws : Websocket) where
  round-Resumes :
      (x : Result Reading)
      → read_frame v ≡ x
      → length v ≤ f
      → length v + length w ≤ g
      → length v + length w < top
      → ((ws' : Websocket) (u : Bytes)
          → length u < f
          → length u + length w < g
          → length u + length w < top
          → Resumes top u w (receive_loop f ws' u) (receive_loop g ws' (u ++ w)))
      → Resumes top v w (round (receive_loop f) ws x) (receive_loop (suc g) ws (v ++ w))
  unfolding round
  round-Resumes (err e) h p q t ih stopped = cc
  round-Resumes (ok incomplete) h p q t ih waiting =
      receive_loop-enough (suc g) top ws (v ++ w) (omega (arith, length-append v w))
        (omega (arith, length-append v w))
      ∙ sym (prepend-nil _)
  round-Resumes (ok unmasked) h p q t ih stopped = absurd (closing-ne-waits ws _ stopped)
  round-Resumes (ok (complete frame n u)) h p q t ih waiting =
      let (size, b) = read_frame-Behind v h in
      let shorter : suc (length u) ≤ length v = omega (arith, ap length b.1, length-drop n v) in
      unfold receive_loop in
      rw (read_frame-append v w h) (
        Resumes-and_then top n v u w (handle_frame ws frame) _ _ b
          (ih _ u (omega arith) (omega arith) (omega arith)) waiting)

pub receive_loop-suc :
    (f : ℕ) (ws : Websocket) (v : Bytes)
    → receive_loop (suc f) ws v ≡ round (receive_loop f) ws (read_frame v)
unfolding receive_loop
receive_loop-suc f ws v = refl

receive_loop-Resumes :
    (f g top : ℕ) (w : Bytes) (ws : Websocket) (v : Bytes)
    → length v < f
    → length v + length w < g
    → length v + length w < top
    → Resumes top v w (receive_loop f ws v) (receive_loop g ws (v ++ w))
receive_loop-Resumes zero g top w ws v p q t = absurd (omega arith)
receive_loop-Resumes (suc f) zero top w ws v p q t = absurd (omega arith)
receive_loop-Resumes (suc f) (suc g) top w ws v p q t = rw (receive_loop-suc f ws v) (
    round-Resumes f g top v w ws (read_frame v) refl (omega arith) (omega arith) t
      (receive_loop-Resumes f g top w))

-- If the call on a first chunk waits for more data, then the call on the whole stream makes the
-- calls of the first, and goes on as a call on the unconsumed bytes with the second chunk behind
-- them; the consumed bytes add up.
pub on_data_received-append :
    (ws : Websocket) (v w : Bytes)
    → (on_data_received ws v).ending ≡ waits
    → on_data_received ws (v ++ w)
      ≡ prepend (on_data_received ws v).events (on_data_received ws v).consumed (
          on_data_received
            (on_data_received ws v).socket
            (drop (on_data_received ws v).consumed v ++ w))
unfolding on_data_received
on_data_received-append ws v w h =
    let first = receive_loop (length v + 1) ws v in
    let top = length v + length w + 1 in
    let left = drop first.consumed v ++ w in
    let size : length left < top =
      omega (arith, length-append (drop first.consumed v) w, length-drop first.consumed v) in
    receive_loop-Resumes (length v + 1) (length (v ++ w) + 1) top w ws v (omega arith)
      (omega (arith, length-append v w)) (omega arith) h
    ∙ ap (prepend first.events first.consumed)
        (receive_loop-enough top (length left + 1) first.socket left size (omega arith))
