-- ===== src/Websocket/Frames.antt =====
-- The receive loop on the bytes of a sequence of client frames is a fold over the frames.
use mathlib.Core.Path.{fun_ext}
use cndl.Base.{
  ℕ, suc, ◌+◌, ◌^◌, ◌<◌, ◌≡◌, refl, ap, ◌∙◌, List, [], ◌∷◌, ◌++◌, Bytes, AreBytes, All, length, ok,
  arith, length-drop,
}
use cndl.Websocket.Types.{Websocket}
use cndl.Websocket.Frame.{Frame, complete, read_frame}
use cndl.Websocket.Receive.{
  Outcome, idle, handle_frame, and_then, round, receive_loop, on_data_received,
}
use cndl.Websocket.Stream.{receive_loop-enough}
use cndl.Websocket.Chunks.{receive_loop-suc}
use cndl.Websocket.Prefix.{read_frame-Behind}
use cndl.Websocket.Wire.{Key, client_frame, IsNamed}
use cndl.Websocket.RoundTrip.{IsKey, read_frame-client_frame}

on_data_received-complete :
    (ws : Websocket) (v : Bytes) {frame : Frame} {n : ℕ} {r : Bytes}
    → read_frame v ≡ ok (complete frame n r)
    → on_data_received ws v ≡ and_then n (handle_frame ws frame) (λ ws'. on_data_received ws' r)
unfolding on_data_received round
on_data_received-complete ws v {frame} {n} {r} h =
    let (size, b) = read_frame-Behind v h in
    let shorter : length r < length v = omega (arith, ap length b.1, length-drop n v) in
    let e : length v + 1 ≡ suc (length v) = omega arith in
    rw (e, receive_loop-suc (length v) ws v, h)
      (ap (and_then n (handle_frame ws frame)) (
        fun_ext (λ ws'. receive_loop-enough (length v) (length r + 1) ws' r shorter (omega arith))))

-- A frame as the client forms it.
pub record Sent : Type 0 where
  pub frame : Frame
  pub key : Key

abbrev pub wire : Sent → Bytes
wire s = client_frame s.frame.fin s.frame.opcode s.key s.frame.payload

abbrev pub wires : List Sent → Bytes
wires [] = []
wires (s ∷ ss) = wire s ++ wires ss

abbrev pub IsSent : Sent → Type 0
IsSent s =
    IsNamed s.frame.opcode
    × IsKey s.key
    × AreBytes s.frame.payload
    × (length s.frame.payload < 2 ^ 64)

-- The frames handled one after the other, until one of them ends the connection.
abbrev pub handle_all : Websocket → List Sent → Outcome
handle_all ws [] = idle ws []
handle_all ws (s ∷ ss) =
    and_then (length (wire s)) (handle_frame ws s.frame) (λ ws'. handle_all ws' ss)

-- On the bytes of any sequence of client frames, `onDataReceived` does what handling the frames
-- in their order does: the same calls, the same state, the same end and the same bytes consumed.
pub on_data_received-wires :
    (ws : Websocket) (ss : List Sent)
    → All IsSent ss
    → on_data_received ws (wires ss) ≡ handle_all ws ss
on_data_received-wires ws [] h = unfold on_data_received receive_loop round read_frame in refl
on_data_received-wires ws (s ∷ ss) ((named, key, bytes, size), h) =
    on_data_received-complete ws (wires (s ∷ ss)) (
      read_frame-client_frame s.frame.fin s.frame.opcode s.key s.frame.payload (wires ss) named key
        bytes size)
    ∙ ap (and_then (length (wire s)) (handle_frame ws s.frame))
        (fun_ext (λ ws'. on_data_received-wires ws' ss h))
