-- ===== src/Websocket/Fragments.antt =====
-- Fragmented messages (the branches of `onDataReceived` on the final bit).
use cndl.Base.{
  ◌≡◌, refl, ◌∙◌, Bool, true, false, List, [], ◌∷◌, ◌++◌, Bytes, All, length, arith, length-append,
  append_assoc, append-nil, if◌then◌else◌,
}
use cndl.Websocket.Types.{
  OpCode, Websocket, Event, Message, on_message, on_ping, on_pong, cancel_timeout,
}
use cndl.Websocket.Frame.{Frame}
use cndl.Websocket.Receive.{
  waits, Outcome, idle, is_data, assembled, handle_fragment, handle_final, handle_frame, and_then,
  on_data_received,
}
use cndl.Websocket.Wire.{Key}
use cndl.Websocket.Frames.{Sent, wire, wires, IsSent, handle_all, on_data_received-wires}

-- What may stand between the first fragment of a message and its last: further fragments, and
-- control frames, which are not fragmented.
pub data Between : Type 0 where
  part ping pong : Bytes → Between

abbrev pub between_frame : Between → Frame
between_frame (part p) = record { fin = false; opcode = OpCode.continuation; payload = p }
between_frame (ping p) = record { fin = true; opcode = OpCode.ping; payload = p }
between_frame (pong p) = record { fin = true; opcode = OpCode.pong; payload = p }

-- A message in fragments: the first with its opcode, what stands between, and the last.
pub record Fragmented : Type 0 where
  pub opcode : OpCode
  pub first : Bytes
  pub first_key : Key
  pub between : List (Between × Key)
  pub last : Bytes
  pub last_key : Key

abbrev sent_between : List (Between × Key) → List Sent → List Sent
sent_between [] tail = tail
sent_between ((b, k) ∷ bs) tail = record { frame = between_frame b; key = k } ∷ sent_between bs tail

abbrev last_frame : Bytes → Frame
last_frame p = record { fin = true; opcode = OpCode.continuation; payload = p }

abbrev last_sent : Bytes → Key → List Sent
last_sent p k = record { frame = last_frame p; key = k } ∷ []

abbrev first_sent : Fragmented → Sent
first_sent m = record {
  frame = record { fin = false; opcode = m.opcode; payload = m.first };
  key = m.first_key;
}

abbrev pub sent_fragmented : Fragmented → List Sent
sent_fragmented m = first_sent m ∷ sent_between m.between (last_sent m.last m.last_key)

-- The parts of the payload that stand between.
abbrev pub parts : List (Between × Key) → Bytes
parts [] = []
parts ((part p, k) ∷ bs) = p ++ parts bs
parts ((_, k) ∷ bs) = parts bs

-- The calls that the control frames make.
abbrev pub controls : Bool → List (Between × Key) → List Event
controls auto [] = []
controls auto ((part p, k) ∷ bs) = controls auto bs
controls auto ((ping p, k) ∷ bs) = on_ping p ∷ controls auto bs
controls auto ((pong p, k) ∷ bs) =
    (if auto then cancel_timeout ∷ [] else []) ++ (on_pong p ∷ controls auto bs)

-- The message that a fragmented one stands for, by the opcode of its first fragment; a fragmented
-- message is a text or a binary one.
abbrev pub message_of : OpCode → Bytes → Message
message_of OpCode.text payload = Message.text payload
message_of OpCode.binary payload = Message.bin payload
message_of op payload = Message.bin payload

assembled-eq : (op : OpCode) (payload : Bytes) → assembled op payload ≡ message_of op payload
assembled-eq OpCode.text payload = refl
assembled-eq OpCode.binary payload = refl
assembled-eq OpCode.continuation payload = refl
assembled-eq OpCode.close payload = refl
assembled-eq OpCode.ping payload = refl
assembled-eq OpCode.pong payload = refl
assembled-eq (OpCode.reserved n) payload = refl

abbrev finished_message : Websocket → List (Between × Key) → Bytes → Event
finished_message ws bs last =
    on_message (assembled ws.cur_opcode (ws.frag_buffer ++ (parts bs ++ last)))

abbrev finished : Websocket → List (Between × Key) → Bytes → List Sent → Outcome
finished ws bs last ss = record {
  socket = record ws { frag_buffer = [] };
  events = controls ws.auto_ping bs ++ (finished_message ws bs last ∷ []);
  consumed = length (wires ss);
  ending = waits;
}

handle_all-between :
    (ws : Websocket) (bs : List (Between × Key)) (last : Bytes) (k : Key)
    → handle_all ws (sent_between bs (last_sent last k))
      ≡ finished ws bs last (sent_between bs (last_sent last k))
unfolding handle_frame handle_fragment handle_final and_then
handle_all-between ws [] last k =
    ground (arith, append-nil (wire (record { frame = last_frame last; key = k })))
handle_all-between ws ((part p, x) ∷ bs) last k =
    rw (handle_all-between (record ws { frag_buffer = ws.frag_buffer ++ p }) bs last k) (
      ground (
        arith,
        append_assoc ws.frag_buffer p (parts bs ++ last),
        append_assoc p (parts bs) last,
        length-append (wire (record { frame = between_frame (part p); key = x }))
            (wires (sent_between bs (last_sent last k))),
      ))
handle_all-between ws ((ping p, x) ∷ bs) last k = rw (handle_all-between ws bs last k) (
    ground (
      arith,
      length-append (wire (record { frame = between_frame (ping p); key = x }))
          (wires (sent_between bs (last_sent last k))),
    ))
handle_all-between ws ((pong p, x) ∷ bs) last k = rw (handle_all-between ws bs last k) (
    ground (
      arith,
      length-append (wire (record { frame = between_frame (pong p); key = x }))
          (wires (sent_between bs (last_sent last k))),
    ))

handle_frame-start :
    (ws : Websocket) (op : OpCode) (p : Bytes)
    → ws.frag_buffer ≡ []
    → is_data op ≡ true
    → handle_frame ws (record { fin = false; opcode = op; payload = p })
      ≡ idle (record ws { frag_buffer = p; cur_opcode = op }) []
unfolding handle_frame handle_fragment
handle_frame-start ws op p empty d = ground arith

-- A fragmented message that arrives while no other is under way, its fragments cut as the client
-- likes and pings and pongs between them: the handler is given the control frames as they come and
-- then the whole payload once, as a text or a binary message by the opcode of the first fragment.
-- Nothing is left in the fragment buffer, and the call consumes all bytes and waits.
pub on_data_received-fragmented :
    (ws : Websocket) (m : Fragmented)
    → ws.frag_buffer ≡ []
    → is_data m.opcode ≡ true
    → All IsSent (sent_fragmented m)
    → on_data_received ws (wires (sent_fragmented m)) ≡ record {
      socket = record ws { frag_buffer = []; cur_opcode = m.opcode };
      events =
          controls ws.auto_ping m.between
          ++ (on_message (message_of m.opcode (m.first ++ (parts m.between ++ m.last))) ∷ []);
      consumed = length (wires (sent_fragmented m));
      ending = waits;
    }
on_data_received-fragmented ws m empty d h =
    let started = record ws { frag_buffer = m.first; cur_opcode = m.opcode } in
    on_data_received-wires ws (sent_fragmented m) h
    ∙ unfold and_then in
      rw
        (
          handle_frame-start ws m.opcode m.first empty d,
          handle_all-between started m.between m.last m.last_key,
          assembled-eq m.opcode (m.first ++ (parts m.between ++ m.last)),
        )
        (ground (
          arith,
          length-append (wire (first_sent m))
              (wires (sent_between m.between (last_sent m.last m.last_key))),
        ))
