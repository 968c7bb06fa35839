-- ===== src/Http/Protocol.antt =====
-- `HttpProtocol::onDataReceived`.
use cndl.Base.{
  ℕ, zero, suc, ◌+◌, List, [], ◌∷◌, ◌++◌, Bytes, codes, str_eq, length, take, drop, ltb, leb,
  starts_with, index_of, Bool, false, ◌||◌, if◌then◌else◌, Option, none, some, Result, ok, err,
  ◌>>=◌, Exception, error, runtime_error, undefined, stuck, substr_from,
}
use cndl.Request.Fields.{FieldVal, word, kv_pair, extract_field_vals}
use cndl.Request.Types.{Header, Request}
use cndl.Request.Parse.{find_field, parse_header}
use cndl.Request.Multipart.{refuse, read_multipart_body}
use cndl.Response.Types.{from_error, serialize}
use cndl.Websocket.Types.{Event, write, nothing, Websocket}
use cndl.Dispatcher.Routes.{ErrorBodyGenerator, route}
use cndl.Http.Types.{
  Surroundings, waits, stops, endless, upgrades, throws, Next, again, ends, Progress, Attempt,
  Outcome,
}
use cndl.Http.Upgrade.{ignore_case_cmp, connection_upgrade}

-- The value of the first pair with the key `boundary`.
unfoldable pub boundary_of : List FieldVal → Option Bytes
boundary_of [] = none
boundary_of (word text ∷ vals) = boundary_of vals
boundary_of (kv_pair key value ∷ vals) =
    if str_eq key (codes "boundary") then some value else boundary_of vals

abbrev pub read_parts : Header → Bytes → Option Bytes → Result Header
read_parts header message none = refuse (codes "content-type: multipart requires a boundary")
read_parts header message (some boundary) = do
  args ← read_multipart_body message boundary
  ok (record header { body_args = args })

-- The parts of the body, for the fields of a content type.
unfoldable pub with_parts : Header → Bytes → List FieldVal → Result Header
with_parts header message [] = refuse (codes "content-type must be defined")
with_parts header message (kv_pair key value ∷ vals) = ok header
with_parts header message (word kind ∷ []) =
    if starts_with (codes "multipart/") kind
    then refuse (codes "content-type: multipart requires a boundary")
    else ok header
with_parts header message (word kind ∷ (val ∷ vals)) =
    if starts_with (codes "multipart/") kind
    then read_parts header message (boundary_of (val ∷ vals))
    else ok header

abbrev pub with_content_type : Header → Bytes → Option Bytes → Result Header
with_content_type header message none = ok header
with_content_type header message (some enctype) = do
  vals ← extract_field_vals enctype (codes ";,")
  with_parts header message vals

unfoldable pub with_body_args : Header → Bytes → Result Header
with_body_args header message =
    with_content_type header message (find_field (codes "content-type") header.fields)

unfoldable pub names_upgrade : List FieldVal → Bool
names_upgrade [] = false
names_upgrade (word text ∷ vals) = ignore_case_cmp text (codes "upgrade") || names_upgrade vals
names_upgrade (kv_pair key value ∷ vals) = names_upgrade vals

abbrev pub asks_upgrade : Option Bytes → Result Bool
asks_upgrade none = ok false
asks_upgrade (some con_field) = do
  vals ← extract_field_vals con_field (codes ",;")
  ok (names_upgrade vals)

unfoldable pub con_upgrade : Header → Result Bool
con_upgrade header = asks_upgrade (find_field (codes "connection") header.fields)

-- The request that is handed on, and whether it asks for an upgrade.
unfoldable pub prepare : Header → Bytes → Result (Request × Bool)
prepare header message = do
  processed_header ← with_body_args header message
  upgrade ← con_upgrade processed_header
  ok (record { header = processed_header; message_body = message }, upgrade)

-- The header is set and counted before `substr` is called, whose exception ends the round.
abbrev pub behind_header : Progress → Header → ℕ → Result Bytes → Progress × Option Exception
behind_header s header consumed (err e) =
    (record s { header = some header; consumed = consumed }, some e)
behind_header s header consumed (ok rest) =
    (record { header = some header; received = rest; consumed = consumed }, none)

abbrev pub cut_header : Progress → ℕ → Result Header → Progress × Option Exception
cut_header s consumed (err e) = (s, some e)
cut_header s consumed (ok header) =
    behind_header s header consumed (substr_from consumed s.received)

abbrev pub cut_header_at : Progress → Option ℕ → Progress × Option Exception
cut_header_at s none = (s, none)
cut_header_at s (some idx) =
    cut_header s (s.consumed + (idx + 4)) (parse_header (take (idx + 2) s.received))

abbrev pub read_header_if : Progress → Option Header → Progress × Option Exception
read_header_if s (some header) = (s, none)
read_header_if s none = cut_header_at s (index_of (codes "\r\n\r\n") s.received)

unfoldable pub read_header : Progress → Progress × Option Exception
read_header s = read_header_if s s.header

-- `write(response.serialize())`, and what follows it.
abbrev pub written : Next → Result Bytes → List Event × Result Next
written next (err e) = ([], err e)
written next (ok bytes) = (write bytes nothing ∷ [], ok next)

module _ {Pattern : Type 0} (env : Surroundings Pattern) where
  -- The version is compared after the header was moved into the request.
  unfoldable pub dispatch : Request → List Event × Result Next
  dispatch request =
      written
        (if str_eq (env.moved_from request.header.version) (codes "HTTP/1.0")
          then ends stops
          else again)
        (serialize
          (route env.regex_match env.dispatcher.error_body_generator env.dispatcher.routes request))

  abbrev pub upgraded : List Event × Result Websocket → List Event × Result Next
  upgraded opened = (opened.0, opened.1 >>= λ ws. ok (ends (upgrades ws)))

  abbrev pub hand_on : Result (Request × Bool) → List Event × Result Next
  hand_on (err e) = ([], err e)
  hand_on (ok (request, upgrade)) =
      if upgrade then upgraded (connection_upgrade env request) else dispatch request

  -- A request that is complete.
  unfoldable pub process : Header → Bytes → List Event × Result Next
  process header message = hand_on (prepare header message)

  abbrev pub read_message : Progress → Option Header → Attempt
  read_message s none = record { progress = s; events = []; result = ok (ends waits) }
  read_message s (some header) =
      let answered = process header (take header.content_length s.received) in
      if ltb (length s.received) header.content_length
      then record { progress = s; events = []; result = ok (ends waits) }
      else record {
        progress = record {
          header = none;
          received = drop header.content_length s.received;
          consumed = s.consumed + header.content_length;
        };
        events = answered.0;
        result = answered.1;
      }

  abbrev pub go_on : Progress × Option Exception → Attempt
  go_on (s, some e) = record { progress = s; events = []; result = err e }
  go_on (s, none) = read_message s s.header

  -- The body of the `try` block.
  unfoldable pub try_block : Progress → Attempt
  try_block s = go_on (read_header s)

  -- The error response, and what follows it.
  abbrev pub reported : ErrorBodyGenerator → ℕ → Bytes → Next → List Event × Result Next
  reported generator code what next = written next (serialize (from_error code what generator))

  -- The `catch` clauses, for what the `try` block gives.
  unfoldable pub handle : Result Next → List Event × Result Next
  handle (ok next) = ([], ok next)
  handle (err (error code what)) =
      reported env.dispatcher.error_body_generator code what
        (if leb 500 code then ends stops else again)
  handle (err (runtime_error what)) =
      reported env.dispatcher.error_body_generator 500 what (ends stops)
  handle (err undefined) = ([], err undefined)
  handle (err stuck) = ([], err stuck)
  handle (err _) =
      reported env.dispatcher.error_body_generator 500 (codes "uncaught error") (ends stops)

  abbrev pub or_leave : Result Next → Next
  or_leave (ok next) = next
  or_leave (err e) = ends (throws e)

  -- How the call goes on behind a round.
  unfoldable pub and_then : Progress → List Event → Next → (Progress → Outcome) → Outcome
  and_then s events again rest =
      let later = rest s in record later { events = events ++ later.events }
  and_then s events (ends ending) rest = record {
    header = s.header;
    events = events;
    consumed = s.consumed;
    ending = ending;
  }

  unfoldable pub round : Progress → (Progress → Outcome) → Outcome
  round s rest =
      let attempt = try_block s in
      let handled = handle attempt.result in
      and_then attempt.progress (attempt.events ++ handled.0) (or_leave handled.1) rest

  unfoldable pub serve_loop : ℕ → Progress → Outcome
  serve_loop zero s = record {
    header = s.header;
    events = [];
    consumed = s.consumed;
    ending = endless;
  }
  serve_loop (suc rounds) s = round s (serve_loop rounds)

  -- The first round may have a header already, every other that goes on takes four bytes.
  unfoldable pub on_data_received : Option Header → Bytes → Outcome
  on_data_received header received =
      serve_loop (suc (suc (length received)))
        (record { header = header; received = received; consumed = 0 })
