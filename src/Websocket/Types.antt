-- ===== src/Websocket/Types.antt =====
-- The types of Websocket.h: opcodes, close codes, messages, the state of a connection, and the
-- calls that a connection makes on its handler, its connection handler and its timers.
use cndl.Base.{ℕ, Bool, Bytes, ◌==◌, if◌then◌else◌}

-- `enum class OpCode`; `reserved` holds the four-bit values that the enumeration does not name,
-- which `static_cast` produces all the same.
pub data OpCode : Type 0 where
  continuation text binary close ping pong : OpCode
  reserved : ℕ → OpCode

-- The value of an opcode on the wire.
unfoldable pub opcode_value : OpCode → ℕ
opcode_value OpCode.continuation = 0x00
opcode_value OpCode.text = 0x01
opcode_value OpCode.binary = 0x02
opcode_value OpCode.close = 0x08
opcode_value OpCode.ping = 0x09
opcode_value OpCode.pong = 0x0a
opcode_value (OpCode.reserved n) = n

-- `static_cast<OpCode>(n)`
unfoldable pub to_opcode : ℕ → OpCode
to_opcode n =
    if n == 0x00
    then OpCode.continuation
    else if n == 0x01
    then OpCode.text
    else if n == 0x02
    then OpCode.binary
    else if n == 0x08
    then OpCode.close
    else if n == 0x09
    then OpCode.ping
    else if n == 0x0a
    then OpCode.pong
    else OpCode.reserved n

pub data CloseCode : Type 0 where
  normal going_away protocol_error unacceptable : CloseCode
  invalid_data policy_violation message_too_big unexpected_error : CloseCode

unfoldable pub close_code_value : CloseCode → ℕ
close_code_value normal = 1000
close_code_value going_away = 1001
close_code_value protocol_error = 1002
close_code_value unacceptable = 1003
close_code_value invalid_data = 1007
close_code_value policy_violation = 1008
close_code_value message_too_big = 1009
close_code_value unexpected_error = 1011

-- `AnyMessage`, a variant of a text and a binary message.
pub data Message : Type 0 where
  text : Bytes → Message
  bin : Bytes → Message

abbrev pub message_bytes : Message → Bytes
message_bytes (Message.text m) = m
message_bytes (Message.bin m) = m

-- The callback that runs when a write is done: none, the one of `close` (which closes the
-- connection), the one of the auto ping (which starts the timeout timer), or the application's.
pub data AfterSent : Type 0 where
  nothing closes starts_timeout : AfterSent
  app : ℕ → AfterSent

-- The calls that a websocket makes: on its handler (`on_…`), on the connection handler (`write`),
-- and on the timers of the auto ping.
pub data Event : Type 0 where
  on_message : Message → Event
  on_ping on_pong : Bytes → Event
  on_close : Event
  write : Bytes → AfterSent → Event
  cancel_timeout remove_timers start_timers clear_ping_timer : Event

-- The members of `Websocket` that its methods change. `auto_ping` tells whether the optional of
-- that name is engaged. The handler is taken to be installed.
pub record Websocket : Type 0 where
  pub frag_buffer : Bytes
  pub cur_opcode : OpCode
  pub auto_ping : Bool
