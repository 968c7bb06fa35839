-- ===== src/Tests/WebsocketCases.antt =====
-- The theorems on the websocket at concrete frames.
use cndl.Base.{
  ℕ, ◌+◌, ◌*◌, ◌≡◌, ◌≢◌, ◌≤◌, ◌<◌, refl, ◌⊎◌, true, [], ◌∷◌, ◌++◌, Bytes, codes, length, drop, some,
  ok, err, invalid_argument, out_of_range, arith,
}
use cndl.Websocket.Types.{
  OpCode, normal, close_code_value, Message, closes, on_close, on_message, write, Websocket,
}
use cndl.Websocket.Frame.{complete, read_frame}
use cndl.Websocket.Send.{serialize, close}
use cndl.Websocket.Receive.{waits, stuck, receive_loop, round, on_data_received}
use cndl.Websocket.Wire.{Key, client_frame, read_server_frame}
use cndl.Websocket.RoundTrip.{read_frame-client_frame}
use cndl.Websocket.Stream.{prepend, on_data_received-IsSound}
use cndl.Websocket.Chunks.{on_data_received-append}
use cndl.Websocket.Frames.{Sent, wires, handle_all, on_data_received-wires}
use cndl.Websocket.Fragments.{
  Fragmented, Between, sent_fragmented, parts, controls, on_data_received-fragmented,
}
use cndl.Websocket.Reply.{expected, timers_off, ReasonFits, read_server_frame-serialize, close_lem}
use cndl.Websocket.Violations.{thrown, on_data_received-cut_header16}

abbrev fresh : Websocket
fresh = record { frag_buffer = []; cur_opcode = OpCode.continuation; auto_ping = true }

abbrev key : Key
key = record { a = 1; b = 2; c = 3; d = 250 }

abbrev hello : Sent
hello = record {
  frame = record { fin = true; opcode = OpCode.text; payload = codes "hello" };
  key = key;
}

abbrev question : Sent
question = record {
  frame = record { fin = true; opcode = OpCode.ping; payload = codes "?" };
  key = key;
}

abbrev split : Fragmented
split = record {
  opcode = OpCode.binary;
  first = 1 ∷ 2 ∷ [];
  first_key = key;
  between = (Between.part (3 ∷ []), key) ∷ (Between.ping (9 ∷ []), key) ∷ [];
  last = 4 ∷ [];
  last_key = key;
}

abbrev one_byte : Bytes
one_byte = 129 ∷ []

IsKey-key : (1 < 256) × (2 < 256) × (3 < 256) × (250 < 256)
IsKey-key = (omega arith, omega arith, omega arith, omega arith)

on_data_received-wires_example :
    on_data_received fresh (wires (hello ∷ question ∷ []))
    ≡ handle_all fresh (hello ∷ question ∷ [])
on_data_received-wires_example =
    on_data_received-wires fresh (hello ∷ question ∷ []) (
      (tt, IsKey-key, ground arith, ground arith),
      ((tt, IsKey-key, ground arith, ground arith), tt),
    )

on_data_received-append_example :
    on_data_received fresh (one_byte ++ (133 ∷ []))
    ≡ prepend (on_data_received fresh one_byte).events (on_data_received fresh one_byte).consumed (
        on_data_received
          (on_data_received fresh one_byte).socket
          (drop (on_data_received fresh one_byte).consumed one_byte ++ (133 ∷ [])))
unfolding on_data_received receive_loop round read_frame
on_data_received-append_example = on_data_received-append fresh one_byte (133 ∷ []) refl

read_frame-client_frame_example :
    read_frame (client_frame true OpCode.text key (codes "hi") ++ (7 ∷ []))
    ≡ ok (
        complete
          (record { fin = true; opcode = OpCode.text; payload = codes "hi" })
          (length (client_frame true OpCode.text key (codes "hi")))
          (7 ∷ []))
read_frame-client_frame_example =
    read_frame-client_frame true OpCode.text key (codes "hi") (7 ∷ []) tt IsKey-key (ground arith)
      (ground arith)

on_data_received-fragmented_example :
    on_data_received fresh (wires (sent_fragmented split)) ≡ record {
      socket = record fresh { frag_buffer = []; cur_opcode = OpCode.binary };
      events =
          controls true split.between
          ++ (on_message (Message.bin (1 ∷ 2 ∷ (parts split.between ++ (4 ∷ [])))) ∷ []);
      consumed = length (wires (sent_fragmented split));
      ending = waits;
    }
on_data_received-fragmented_example = on_data_received-fragmented fresh split refl refl (
  (tt, IsKey-key, ground arith, ground arith),
  (
    (tt, IsKey-key, ground arith, ground arith),
    (
      (tt, IsKey-key, ground arith, ground arith),
      ((tt, IsKey-key, ground arith, ground arith), tt),
    ),
  ),
)

read_server_frame-serialize_example :
    read_server_frame (serialize (codes "hi") OpCode.text true ++ (7 ∷ []))
    ≡ some (expected OpCode.text true (codes "hi") (7 ∷ []))
read_server_frame-serialize_example =
    read_server_frame-serialize OpCode.text true (codes "hi") (7 ∷ []) tt (ground arith)

on_data_received-IsSound_example :
    ((on_data_received fresh one_byte).consumed ≤ 1)
    × ((on_data_received fresh one_byte).ending ≢ stuck)
on_data_received-IsSound_example = on_data_received-IsSound fresh one_byte

close_lem_example :
    ((125 < 3) × (close fresh normal (Message.text (codes "bye")) ≡ err invalid_argument))
    ⊎ ((3 ≤ 125)
        × (frame : Bytes) × (hi lo : ℕ) × (close fresh normal (Message.text (codes "bye"))
            ≡ ok (timers_off fresh ++ (on_close ∷ write frame closes ∷ [])))
        × ReasonFits (codes "bye") hi lo (frame ++ []) []
        × (hi * 256 + lo ≡ close_code_value normal))
close_lem_example = close_lem fresh normal (Message.text (codes "bye")) []

on_data_received-cut_header16_example :
    on_data_received fresh (130 ∷ 254 ∷ 1 ∷ 0 ∷ 9 ∷ 9 ∷ []) ≡ thrown fresh out_of_range
on_data_received-cut_header16_example =
    on_data_received-cut_header16 fresh 130 (1 ∷ 0 ∷ 9 ∷ 9 ∷ []) (omega arith) (omega arith)
