-- ===== src/Http/Types.antt =====
-- What an HTTP connection works with (HttpProtocol.h): its surroundings, and how a call ends.
use cndl.Base.{ℕ, List, [], Bytes, Option, Exception, Result, false}
use cndl.Request.Types.{Header}
use cndl.Websocket.Types.{OpCode, Event, Websocket}
use cndl.Dispatcher.Routes.{Matcher, Dispatcher}

-- The dispatcher of the connection, the matches of a regular expression, `SHA1` of OpenSSL, and what
-- a string holds after its contents were moved.
pub record Surroundings (Pattern : Type 0) : Type 0 where
  pub dispatcher : Dispatcher Pattern
  pub regex_match : Matcher Pattern
  pub sha1 : Bytes → Bytes
  pub moved_from : Bytes → Bytes

-- `Websocket{handler}`
abbrev pub new_websocket : Websocket
new_websocket = record { frag_buffer = []; cur_opcode = OpCode.continuation; auto_ping = false }

-- How `onDataReceived` ends: it waits for more data (`ProtocolChange{}`), the connection is given to
-- a websocket, it gets no further data (`ProtocolChange{nullptr}`), or an exception leaves the call.
-- `endless` is no end of the code: the rounds of the model were used up.
pub data Ending : Type 0 where
  waits stops endless : Ending
  upgrades : Websocket → Ending
  throws : Exception → Ending

-- What a round of the loop leads to.
pub data Next : Type 0 where
  again : Next
  ends : Ending → Next

-- The locals of a call and the member `header`: `received` is what is left of the buffer.
pub record Progress : Type 0 where
  pub header : Option Header
  pub received : Bytes
  pub consumed : ℕ

-- A round: the progress made, the calls on the connection, and the value or the exception.
pub record Attempt : Type 0 where
  pub progress : Progress
  pub events : List Event
  pub result : Result Next

-- A call: the member `header` behind it, the calls on the connection, the bytes consumed, and the
-- end.
pub record Outcome : Type 0 where
  pub header : Option Header
  pub events : List Event
  pub consumed : ℕ
  pub ending : Ending
