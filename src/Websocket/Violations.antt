-- ===== src/Websocket/Violations.antt =====
-- What `onDataReceived` does with input that is no proper frame, or not yet.
use cndl.Base.{
  ℕ, zero, suc, ◌+◌, ◌*◌, ◌%◌, ◌^◌, ◌≤◌, ◌<◌, ◌≡◌, refl, ◌∙◌, inl, inr, true, false, List, [], ◌∷◌,
  ◌++◌, Bytes, length, ok, err, out_of_range, undefined, arith, if◌then◌else◌, ltb, codes, at,
  substr_from, ge→ltb, lt→ltb, Exception, tests, length-drop, substr_from-eq-ok, Bool-cases, dec_lt,
  drop,
}
use cndl.Websocket.Types.{OpCode, Websocket, Event, on_close, remove_timers, protocol_error}
use cndl.Websocket.Send.{close, close_payload, send}
use cndl.Websocket.Types.{closes}
use cndl.Websocket.Frame.{
  read_u64, read_length16, read_length64, read_length, read_payload, read_masked, read_frame,
}
use cndl.Websocket.Receive.{
  stops, throws, Outcome, idle, is_data, handle_fragment, handle_frame, round, receive_loop,
  on_data_received,
}
use cndl.Websocket.Chunks.{receive_loop-suc}

on_data_received-round :
    (ws : Websocket) (v : Bytes)
    → on_data_received ws v ≡ round (receive_loop (length v)) ws (read_frame v)
unfolding on_data_received
on_data_received-round ws v =
    let e : length v + 1 ≡ suc (length v) = omega arith in rw (e, receive_loop-suc)

-- The calls of `close` on a protocol error, with a reason that fits.
abbrev pub close_events : Websocket → Bytes → List Event
close_events ws reason =
    (if ws.auto_ping then remove_timers ∷ [] else [])
    ++ (on_close ∷ send (close_payload protocol_error reason) OpCode.close true closes ∷ [])

-- A frame that is not masked, once six bytes are there: the handler is told of the close, a close
-- frame with code 1002 is written, and the connection gets no further data; nothing of the frame is
-- handled or consumed.
pub on_data_received-unmasked :
    (ws : Websocket) (b0 b1 : ℕ) (rest : Bytes)
    → b1 < 128
    → 4 ≤ length rest
    → on_data_received ws (b0 ∷ b1 ∷ rest) ≡ record {
      socket = ws;
      events = close_events ws (codes "received unmasked message");
      consumed = 0;
      ending = stops;
    }
on_data_received-unmasked ws b0 b1 rest low long =
    on_data_received-round ws (b0 ∷ b1 ∷ rest)
    ∙ unfold read_frame round close in
      rw (ge→ltb (length (b0 ∷ b1 ∷ rest)) 6 (omega arith), lt→ltb b1 128 low)

-- A byte of the buffer that is not there.
at-undefined : (v : Bytes) (i : ℕ) → length v ≤ i → at v i ≡ err undefined
at-undefined [] i h = refl
at-undefined (x ∷ v) zero h = absurd (omega arith)
at-undefined (x ∷ v) (suc i) h = at-undefined v i (omega arith)

at-ok : (v : Bytes) (i : ℕ) → i < length v → (b : ℕ) × (at v i ≡ ok b)
at-ok [] i h = absurd (omega arith)
at-ok (x ∷ v) zero h = (x, refl)
at-ok (x ∷ v) (suc i) h = at-ok v i (omega arith)

read_u64-undefined :
    (n i acc : ℕ) (v : Bytes) → length v < i + n → i ≤ length v → read_u64 n i acc v ≡ err undefined
unfolding read_u64
read_u64-undefined zero i acc v h k = absurd (omega arith)
read_u64-undefined (suc n) i acc v h k = elim (dec_lt i (length v)) [
  | yes inside ↦
      let (b, e) = at-ok v i inside in
      rw e (read_u64-undefined n (i + 1) _ v (omega arith) (omega arith))
  | no outside ↦ rw (at-undefined v i (omega arith))
]

read_u64-ok : (n i acc : ℕ) (v : Bytes) → i + n ≤ length v → (r : ℕ) × (read_u64 n i acc v ≡ ok r)
unfolding read_u64
read_u64-ok zero i acc v h = (acc, refl)
read_u64-ok (suc n) i acc v h =
    let (b, e) = at-ok v i (omega arith) in
    let (r, later) = read_u64-ok n (i + 1) ((acc * 2 ^ 8 + b) % 2 ^ 64) v (omega arith) in
    (r, rw e later)

substr_from-out_of_range : (n : ℕ) (v : Bytes) → length v < n → substr_from n v ≡ err out_of_range
unfolding substr_from
substr_from-out_of_range n v h = ground arith

read_masked-cut16 :
    (b0 : ℕ) (rest : Bytes)
    → 4 ≤ length rest
    → length rest < 6
    → read_masked (b0 ∷ 254 ∷ rest) 254 ≡ err out_of_range
unfolding read_masked read_length read_length16 read_payload
read_masked-cut16 b0 rest h k =
    let (hi, e0) = at-ok rest 0 (omega arith) in
    let (lo, e1) = at-ok rest 1 (omega arith) in
    rw (
      substr_from-eq-ok 2 (b0 ∷ 254 ∷ rest) (omega arith),
      e0,
      e1,
      substr_from-eq-ok 2 rest (omega arith),
      substr_from-out_of_range 4 (drop 2 rest) (omega (arith, length-drop 2 rest)),
    )

read_masked-cut64 :
    (b0 : ℕ) (rest : Bytes)
    → 4 ≤ length rest
    → length rest < 12
    → read_masked (b0 ∷ 255 ∷ rest) 255
      ≡ err (if ltb (length rest) 8 then undefined else out_of_range)
unfolding read_masked read_length read_length64 read_payload
read_masked-cut64 b0 rest h k =
    rw (substr_from-eq-ok 2 (b0 ∷ 255 ∷ rest) (omega arith))
      (elim (Bool-cases (ltb (length rest) 8)) [
        | inl short ↦ rw (short, read_u64-undefined 8 0 0 rest (omega tests) (omega arith))
        | inr enough ↦
            let eight : 8 ≤ length rest = omega tests in
            let (n, e) = read_u64-ok 8 0 0 rest eight in
            rw (
              enough,
              e,
              substr_from-eq-ok 8 rest eight,
              substr_from-out_of_range 4 (drop 8 rest) (omega (arith, length-drop 8 rest)),
            )
      ])

abbrev pub thrown : Websocket → Exception → Outcome
thrown ws e = record { socket = ws; events = []; consumed = 0; ending = throws e }

on_data_received-masked :
    (ws : Websocket) (b0 b1 : ℕ) (rest : Bytes) {e : Exception}
    → 128 ≤ b1
    → 4 ≤ length rest
    → read_masked (b0 ∷ b1 ∷ rest) b1 ≡ err e
    → on_data_received ws (b0 ∷ b1 ∷ rest) ≡ thrown ws e
on_data_received-masked ws b0 b1 rest high long h =
    on_data_received-round ws (b0 ∷ b1 ∷ rest)
    ∙ unfold read_frame round in
      rw (ge→ltb (length (b0 ∷ b1 ∷ rest)) 6 (omega arith), ge→ltb b1 128 high, h)

-- When the buffer ends inside the header of a masked frame with the 16-bit length, six bytes or more
-- being there, the call does not wait for the rest: `std::out_of_range` leaves it, and no frame is
-- handled.
pub on_data_received-cut_header16 :
    (ws : Websocket) (b0 : ℕ) (rest : Bytes)
    → 4 ≤ length rest
    → length rest < 6
    → on_data_received ws (b0 ∷ 254 ∷ rest) ≡ thrown ws out_of_range
on_data_received-cut_header16 ws b0 rest long k =
    on_data_received-masked ws b0 254 rest (omega arith) long (read_masked-cut16 b0 rest long k)

-- When the buffer ends inside the header of a masked frame with the 64-bit length, six bytes or more
-- being there, the call does not wait for the rest, and no frame is handled: a byte behind the buffer
-- is read if less than ten bytes are there, and `std::out_of_range` leaves the call otherwise.
pub on_data_received-cut_header64 :
    (ws : Websocket) (b0 : ℕ) (rest : Bytes)
    → 4 ≤ length rest
    → length rest < 12
    → on_data_received ws (b0 ∷ 255 ∷ rest)
      ≡ thrown ws (if ltb (length rest) 8 then undefined else out_of_range)
on_data_received-cut_header64 ws b0 rest long k =
    on_data_received-masked ws b0 255 rest (omega arith) long (read_masked-cut64 b0 rest long k)

eq-nil : (xs : Bytes) → ltb 0 (length xs) ≡ false → xs ≡ []
eq-nil [] h = refl
eq-nil (x ∷ xs) h = ground arith

-- A new text or binary fragment while a message is under way: with bytes of that message in the
-- buffer the connection is closed with code 1002, and with none there it is taken for the start of
-- a message, so that the first message is forgotten.
pub handle_frame-unterminated :
    (ws : Websocket) (op : OpCode) (payload : Bytes)
    → is_data op ≡ true
    → handle_frame ws (record { fin = false; opcode = op; payload = payload }) ≡ (
        if ltb 0 (length ws.frag_buffer)
        then record {
          socket = ws;
          events = close_events ws (codes "unterminated fragmented message");
          consumed = 0;
          ending = stops;
        }
        else idle (record ws { frag_buffer = payload; cur_opcode = op }) [])
unfolding handle_frame handle_fragment close
handle_frame-unterminated ws op payload d =
    rw d (elim (Bool-cases (ltb 0 (length ws.frag_buffer))) [
      | inl busy ↦ rw busy
      | inr free ↦ rw free (ground (arith, eq-nil ws.frag_buffer free))
    ])
