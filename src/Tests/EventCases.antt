-- ===== src/Tests/EventCases.antt =====
-- The theorems on the events of a socket at concrete connections.
use cndl.Base.{
  ◌≡◌, refl, true, false, Bool, List, [], ◌∷◌, ◌++◌, Bytes, codes, some, none, arith, drop, map,
  substr, substr_from,
}
use cndl.Websocket.Types.{OpCode, to_opcode, on_ping, write, nothing, Websocket}
use cndl.Websocket.Frame.{read_frame, read_masked, read_length, read_payload, unmask}
use cndl.Websocket.Receive.{
  handle_frame, handle_final, and_then, round, receive_loop, on_data_received,
}
use cndl.Connection.Transmit.{
  takes, would_block, drain, on_writable, write as transmit, flush_job, flush_loop, run_callback,
}
use cndl.Connection.Queue.{IsValid}
use cndl.Connection.Protocols.{websocket, http, protocol_received}
use cndl.Connection.Handler.{
  gives, RecvAnswer, Connection, Flags, returns, Application, read_loop, deliver, take_in,
  on_readable, on_output, rearm, finish, on_event,
}
use cndl.Connection.Calls.{Sends}
use cndl.Connection.Events.{SocketEvent, run_events, run_events-Sends}
use cndl.Connection.Follows.{bytes_read}
use cndl.Connection.Reads.{IsRead, on_event-split}
use cndl.Connection.Stopped.{IsQuiet, run_events-IsQuiet, run_events-lingers}
use cndl.Connection.Served.{Dispatched, IsExchange}
use cndl.Connection.KeepAlive.{Exchanges, Kept, run_events-Kept}
use cndl.Request.Fields.{crlf}
use cndl.Request.Parse.{find_field}
use cndl.Response.Decimal.{decimal, digits}
use cndl.Response.Fields.{has}
use cndl.Response.Types.{serialize, reason_of, find_reason, field_lines, length_line}
use cndl.Dispatcher.Extract.{extract}
use cndl.Dispatcher.Routes.{route, match_infos, largest, call}
use cndl.Http.Protocol.{prepare, with_body_args, con_upgrade}
use cndl.Tests.ConnectionCases.{opened, waiting_for}
use cndl.Tests.HttpCases.{env, get_header, get-IsRequest, get_head}

-- An application that writes when it is pinged.
abbrev pub echo : Application
echo (on_ping payload) = (codes "pong", nothing) ∷ []
echo _ = []

abbrev socket : Websocket
socket = record { frag_buffer = []; cur_opcode = OpCode.continuation; auto_ping = false }

abbrev pinged : Connection
pinged = record {
  output = opened (takes 100 ∷ []);
  in_buf = [];
  protocol = some (websocket socket);
}

abbrev stopped_connection : Connection
stopped_connection = record {
  output = waiting_for (takes 0 ∷ would_block ∷ []);
  in_buf = codes "rest";
  protocol = none;
}

abbrev pub flags_with : Bool → Bool → Flags
flags_with readable writable = record { hung_up = false; readable = readable; writable = writable }

-- An empty ping, and its two parts.
abbrev ping_frame : Bytes
ping_frame = 137 ∷ 128 ∷ 1 ∷ 2 ∷ 3 ∷ 4 ∷ []

abbrev reads : List SocketEvent
reads = (flags_with true true, gives ping_frame ∷ []) ∷ []

pinged-IsValid : IsValid pinged.output
pinged-IsValid = record { fine = (tt, tt); fits = tt; size = refl; bound = omega arith }

reads_events : (run_events env echo reads pinged).events ≡ on_ping [] ∷ []
unfolding run_events on_event on_readable read_loop take_in protocol_received deliver finish rearm
    on_data_received receive_loop round read_frame read_masked read_length read_payload unmask
    to_opcode handle_frame handle_final and_then substr_from substr on_output on_writable drain
    transmit flush_job flush_loop run_callback
reads_events = refl

run_events-Sends_example :
    Sends echo pinged.output
      (run_events env echo reads pinged).events
      (run_events env echo reads pinged).connection.output
run_events-Sends_example =
    run_events-Sends env echo reads pinged pinged-IsValid (rw reads_events (omega arith))

pub event-IsRead :
    (writable : Bool) (bytes : Bytes) → IsRead (flags_with true writable) (gives bytes ∷ [])
event-IsRead writable bytes = record { there = refl; readable = refl; succeeds = (tt, tt) }

run_events-IsQuiet_example : IsQuiet (codes "rest") (run_events env echo reads stopped_connection)
run_events-IsQuiet_example = run_events-IsQuiet env echo reads stopped_connection refl

abbrev idle_connection : Connection
idle_connection = record { output = opened []; in_buf = []; protocol = none }

run_events-lingers_example :
    (run_events env echo
      ((flags_with true false, gives ping_frame ∷ []) ∷ [])
      idle_connection).connection
    ≡ idle_connection
run_events-lingers_example =
    run_events-lingers env echo ((flags_with true false, gives ping_frame ∷ []) ∷ [])
      idle_connection refl refl refl refl ((refl, refl), tt)

on_event-split_example :
    let first = on_event env echo (flags_with true false) (gives (137 ∷ 128 ∷ []) ∷ []) pinged in
    let second =
      on_event env echo
        (flags_with true false)
        (gives (1 ∷ 2 ∷ 3 ∷ 4 ∷ []) ∷ [])
        first.connection in
    let whole = on_event env echo (flags_with true false) (gives ping_frame ∷ []) pinged in
    (whole.events ≡ first.events ++ second.events)
    × (whole.leaving ≡ returns)
    × (whole.connection.protocol ≡ second.connection.protocol)
    × (whole.connection.in_buf ≡ second.connection.in_buf)
unfolding bytes_read on_event on_readable read_loop take_in protocol_received deliver finish rearm
    on_data_received receive_loop round read_frame read_masked read_length read_payload unmask
    to_opcode handle_frame handle_final and_then substr_from substr
on_event-split_example =
    on_event-split env echo (flags_with true false) (flags_with true false) (flags_with true false)
      (gives ping_frame ∷ []) (gives (137 ∷ 128 ∷ []) ∷ []) (gives (1 ∷ 2 ∷ 3 ∷ 4 ∷ []) ∷ []) pinged
      socket refl (event-IsRead false ping_frame) (event-IsRead false _) (event-IsRead false _) refl
      refl refl

-- A connection that has the first bytes of a request.
abbrev asking : Connection
asking = record {
  output = opened (takes 100 ∷ []);
  in_buf = codes "GET ";
  protocol = some (http none);
}

abbrev whole_request : Bytes
whole_request = get_head ++ (crlf ++ [])

-- The rest of that request, and a second one.
abbrev two_requests : List SocketEvent
two_requests =
    (flags_with true true, gives (drop 4 whole_request) ∷ [])
    ∷ ((flags_with true false, gives whole_request ∷ []) ∷ [])

abbrev get_response : Bytes
get_response =
    codes
      "HTTP/1.1 200 OK\r\nContent-Type: text/html, charset=utf-8\r\nContent-Length: 5\r\n\r\nhello"

get-Dispatched : Dispatched env get_header [] get_response
unfolding prepare with_body_args find_field con_upgrade route match_infos largest call extract
    serialize reason_of find_reason field_lines length_line decimal digits has
get-Dispatched = record {
  request = record { header = get_header; message_body = [] };
  prepared = refl;
  answers = refl;
  stays = refl;
}

get-IsExchange :
    (in_buf : Bytes) (flags : Flags) (answers : List RecvAnswer)
    → IsRead flags answers
    → in_buf ++ bytes_read answers ≡ whole_request
    → IsExchange env echo in_buf flags answers get_response
get-IsExchange in_buf flags answers read all = record {
  method = codes "GET";
  target = codes "/a/b";
  version = codes "HTTP/1.1";
  fields = [];
  header = get_header;
  body = [];
  asks = get-IsRequest;
  full = refl;
  dispatched = get-Dispatched;
  read = read;
  all = all;
}

two_requests-Exchanges :
    Exchanges env echo asking.in_buf two_requests (get_response ∷ get_response ∷ [])
unfolding bytes_read
two_requests-Exchanges = (
  get-IsExchange (codes "GET ") (flags_with true true) (gives (drop 4 whole_request) ∷ [])
      (event-IsRead true _) refl,
  (
    get-IsExchange [] (flags_with true false) (gives whole_request ∷ []) (event-IsRead false _)
        refl,
    refl,
  ),
)

run_events-Kept_example :
    Kept env echo (get_response ∷ get_response ∷ []) (run_events env echo two_requests asking)
    × Sends echo asking.output
        (map (λ response. write response nothing) (get_response ∷ get_response ∷ []))
        (run_events env echo two_requests asking).connection.output
run_events-Kept_example =
    run_events-Kept env echo two_requests (get_response ∷ get_response ∷ []) asking refl
      (record { socket = refl; jobs = tt })
      (record { fine = (tt, tt); fits = tt; size = refl; bound = omega arith })
      two_requests-Exchanges (omega arith)
