-- ===== src/Websocket/Receive.antt =====
-- `Websocket::onDataReceived`: the loop over the frames in the buffer.
use cndl.Base.{
  ℕ, zero, suc, ◌+◌, Bool, true, false, not, List, [], ◌∷◌, ◌++◌, Bytes, codes, length, ltb,
  if◌then◌else◌, Result, ok, err, Exception,
}
use cndl.Websocket.Types.{
  OpCode, normal, protocol_error, Message, Event, on_message, on_ping, on_pong, cancel_timeout,
  Websocket,
}
use cndl.Websocket.Send.{close}
use cndl.Websocket.Frame.{Frame, Reading, incomplete, unmasked, complete, read_frame}

-- How a call ends: it waits for more data (`ProtocolChange{}`), the connection gets no further
-- data (`ProtocolChange{nullptr}`), or an exception leaves it. `stuck` is no end of the code: the
-- rounds of the model were used up.
pub data Ending : Type 0 where
  waits stops stuck : Ending
  throws : Exception → Ending

-- The state, the calls made in their order, the bytes consumed, and the end.
pub record Outcome : Type 0 where
  pub socket : Websocket
  pub events : List Event
  pub consumed : ℕ
  pub ending : Ending

abbrev pub is_data : OpCode → Bool
is_data OpCode.text = true
is_data OpCode.binary = true
is_data _ = false

-- The message that ends a fragmented one, by the opcode of its first fragment.
abbrev pub assembled : OpCode → Bytes → Message
assembled OpCode.text m = Message.text m
assembled _ m = Message.bin m

abbrev pub idle : Websocket → List Event → Outcome
idle ws events = record { socket = ws; events = events; consumed = 0; ending = waits }

-- `close(code, reason); return …nullptr`, or what `close` throws.
abbrev pub closing : Websocket → Result (List Event) → Outcome
closing ws (ok events) = record { socket = ws; events = events; consumed = 0; ending = stops }
closing ws (err e) = record { socket = ws; events = []; consumed = 0; ending = throws e }

-- A frame without the final bit.
unfoldable pub handle_fragment : Websocket → Frame → Outcome
handle_fragment ws frame =
    let appended = ws.frag_buffer ++ frame.payload in
    if is_data frame.opcode
    then (if ltb 0 (length ws.frag_buffer)
        then closing ws
            (close ws protocol_error (Message.text (codes "unterminated fragmented message")))
        else idle (record ws { frag_buffer = appended; cur_opcode = frame.opcode }) [])
    else idle (record ws { frag_buffer = appended }) []

-- A frame with the final bit.
unfoldable pub handle_final : Websocket → OpCode → Bytes → Outcome
handle_final ws OpCode.continuation payload =
    idle (record ws { frag_buffer = [] })
      (on_message (assembled ws.cur_opcode (ws.frag_buffer ++ payload)) ∷ [])
handle_final ws OpCode.text payload = idle ws (on_message (Message.text payload) ∷ [])
handle_final ws OpCode.binary payload = idle ws (on_message (Message.bin payload) ∷ [])
handle_final ws OpCode.close payload =
    closing ws (close ws normal (Message.text (codes "thx goodbye")))
handle_final ws OpCode.ping payload = idle ws (on_ping payload ∷ [])
handle_final ws OpCode.pong payload =
    idle ws ((if ws.auto_ping then cancel_timeout ∷ [] else []) ++ (on_pong payload ∷ []))
handle_final ws (OpCode.reserved n) payload = idle ws []

unfoldable pub handle_frame : Websocket → Frame → Outcome
handle_frame ws frame =
    if not frame.fin then handle_fragment ws frame else handle_final ws frame.opcode frame.payload

-- The calls of a frame of `n` bytes, and then what the rest of the loop does.
unfoldable pub and_then : ℕ → Outcome → (Websocket → Outcome) → Outcome
and_then n o rest = elim o.ending [
  | waits ↦
      let later = rest o.socket in
      record later { events = o.events ++ later.events; consumed = n + later.consumed }
  | _ ↦ record o { consumed = n }
]

-- One round, with what the next rounds do on the state and the bytes that are left.
unfoldable pub round : (Websocket → Bytes → Outcome) → Websocket → Result Reading → Outcome
round rest ws (err e) = record { socket = ws; events = []; consumed = 0; ending = throws e }
round rest ws (ok incomplete) = idle ws []
round rest ws (ok unmasked) =
    closing ws (close ws protocol_error (Message.text (codes "received unmasked message")))
round rest ws (ok (complete frame n behind)) =
    and_then n (handle_frame ws frame) (λ ws'. rest ws' behind)

unfoldable pub receive_loop : ℕ → Websocket → Bytes → Outcome
receive_loop zero ws bv = record { socket = ws; events = []; consumed = 0; ending = stuck }
receive_loop (suc rounds) ws bv = round (receive_loop rounds) ws (read_frame bv)

-- A frame takes six bytes at least, so that these rounds are enough.
unfoldable pub on_data_received : Websocket → Bytes → Outcome
on_data_received ws bv = receive_loop (length bv + 1) ws bv
