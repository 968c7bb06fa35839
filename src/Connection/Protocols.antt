-- ===== src/Connection/Protocols.antt =====
-- The protocol of a connection: one call of `onDataReceived` of HttpProtocol.cpp or Websocket.cpp, as
-- ConnectionHandler.cpp sees it.
use cndl.Base.{ℕ, List, [], Bytes, Option, none, some, Exception}
use cndl.Request.Types.{Header}
use cndl.Websocket.Types.{Event, Websocket}
use cndl.Websocket.Receive.{
  Ending as WsEnding, Outcome as WsOutcome, on_data_received as websocket_received,
}
use cndl.Websocket.Send.{on_peer_close as websocket_peer_close}
use cndl.Http.Types.{Surroundings, Ending as HttpEnding, Outcome as HttpOutcome}
use cndl.Http.Protocol.{on_data_received as http_received}

-- A `ProtocolHandler`: `HttpProtocol` with its member, or a `Websocket`.
pub data Protocol : Type 0 where
  http : Option Header → Protocol
  websocket : Websocket → Protocol

-- `ProtocolChange`, or what keeps the call from a return. `hangs` is a loop that does not end.
pub data Change : Type 0 where
  stays hangs : Change
  becomes : Option Protocol → Change
  leaves : Exception → Change

-- `ConsumeResult`, with the protocol behind the call and the calls that were made.
pub record Received : Type 0 where
  pub protocol : Protocol
  pub events : List Event
  pub consumed : ℕ
  pub change : Change

abbrev pub change_of_websocket : WsEnding → Change
change_of_websocket WsEnding.waits = stays
change_of_websocket WsEnding.stops = becomes none
change_of_websocket WsEnding.stuck = hangs
change_of_websocket (WsEnding.throws e) = leaves e

abbrev pub change_of_http : HttpEnding → Change
change_of_http HttpEnding.waits = stays
change_of_http HttpEnding.stops = becomes none
change_of_http HttpEnding.endless = hangs
change_of_http (HttpEnding.upgrades ws) = becomes (some (websocket ws))
change_of_http (HttpEnding.throws e) = leaves e

abbrev pub received_by_websocket : WsOutcome → Received
received_by_websocket o = record {
  protocol = websocket o.socket;
  events = o.events;
  consumed = o.consumed;
  change = change_of_websocket o.ending;
}

abbrev pub received_by_http : HttpOutcome → Received
received_by_http o = record {
  protocol = http o.header;
  events = o.events;
  consumed = o.consumed;
  change = change_of_http o.ending;
}

-- `protocol->onDataReceived(received)`
unfoldable pub protocol_received :
    {Pattern : Type 0} → Surroundings Pattern → Protocol → Bytes → Received
protocol_received env (http header) received = received_by_http (http_received env header received)
protocol_received env (websocket ws) received =
    received_by_websocket (websocket_received ws received)

-- `protocol->onPeerClose()`
unfoldable pub peer_close : Option Protocol → List Event
peer_close none = []
peer_close (some (http header)) = []
peer_close (some (websocket ws)) = websocket_peer_close ws
