-- ===== src/Websocket/Send.antt =====
-- What the application calls: `send`, `ping`, `close`, `setAutoPing`, and the default ping reply.
use cndl.Base.{
  ℕ, zero, suc, ◌+◌, ◌*◌, ◌/◌, ◌%◌, ◌^◌, Bool, true, List, [], ◌∷◌, ◌++◌, Bytes, codes, length, leb,
  ltb, if◌then◌else◌, Result, ok, err, invalid_argument, ◌>>=◌,
}
use cndl.Websocket.Types.{
  OpCode, opcode_value, CloseCode, normal, close_code_value, Message, message_bytes, AfterSent,
  nothing, closes, starts_timeout, Event, on_close, write, remove_timers, start_timers,
  clear_ping_timer, Websocket,
}

-- `std::byte(pl >> (i * 8))` for `i` from `n - 1` down to 0.
unfoldable pub big_endian : ℕ → ℕ → Bytes
big_endian zero pl = []
big_endian (suc i) pl = (pl / 2 ^ (i * 8)) % 256 ∷ big_endian i pl

-- The length field of a frame with no mask.
unfoldable pub length_field : ℕ → Bytes
unfolding big_endian
length_field pl =
    if leb pl 125
    then pl ∷ []
    else if leb pl 0xffff
    then 126 ∷ (pl / 2 ^ 8) % 256 ∷ pl % 256 ∷ []
    else 127 ∷ big_endian 8 pl

-- The bytes of a frame that the server sends; an opcode has four bits, so that `|` with 0x80 adds.
unfoldable pub serialize : Bytes → OpCode → Bool → Bytes
unfolding length_field opcode_value
serialize message opcode fin =
    (opcode_value opcode + (if fin then 0x80 else 0x00))
    ∷ (length_field (length message) ++ message)

-- `send(BinMessage, OpCode, bool, AfterSentCB)`
unfoldable pub send : Bytes → OpCode → Bool → AfterSent → Event
send message opcode fin on_after_sent = write (serialize message opcode fin) on_after_sent

-- `send(AnyMessage, AfterSentCB)`
unfoldable pub send_message : Message → AfterSent → Event
unfolding send
send_message (Message.text m) on_after_sent = send m OpCode.text true on_after_sent
send_message (Message.bin m) on_after_sent = send m OpCode.binary true on_after_sent

unfoldable pub ping : Message → AfterSent → Result Event
unfolding send
ping message on_after_sent =
    if ltb 125 (length (message_bytes message))
    then err invalid_argument
    else ok (send (message_bytes message) OpCode.ping true on_after_sent)

-- The payload of a close frame: the code in network order, and the reason.
unfoldable pub close_payload : CloseCode → Bytes → Bytes
unfolding close_code_value
close_payload code reason =
    (close_code_value code / 2 ^ 8) % 256 ∷ close_code_value code % 256 ∷ reason

unfoldable pub close : Websocket → CloseCode → Message → Result (List Event)
unfolding send
close ws code reason =
    if ltb 125 (length (message_bytes reason))
    then err invalid_argument
    else ok (
        (if ws.auto_ping then remove_timers ∷ [] else [])
        ++ (on_close
            ∷ send (close_payload code (message_bytes reason)) OpCode.close true closes
            ∷ []))

-- `setAutoPing`: the timers of an earlier call are taken off the loop first.
unfoldable pub set_auto_ping : Websocket → Websocket × List Event
set_auto_ping ws = (
  record ws { auto_ping = true },
  (if ws.auto_ping then remove_timers ∷ [] else []) ++ (start_timers ∷ []),
)

-- The callback of the timeout timer.
unfoldable pub on_timeout : Websocket → Result (List Event)
unfolding close
on_timeout ws = close ws normal (Message.text (codes "ping timeout"))

-- The callback of the ping timer.
unfoldable pub on_ping_timer : Result (List Event)
unfolding ping
on_ping_timer = do
  sent ← ping (Message.text (codes "ping?")) starts_timeout
  ok (sent ∷ clear_ping_timer ∷ [])

-- `WebsocketHandler::onPing`, the reply that a handler inherits.
unfoldable pub default_on_ping : Bytes → Event
unfolding send
default_on_ping message = send message OpCode.pong true nothing

-- `onPeerClose`
unfoldable pub on_peer_close : Websocket → List Event
on_peer_close ws = on_close ∷ (if ws.auto_ping then remove_timers ∷ [] else [])
