-- ===== src/Http/Request.antt =====
-- What an HTTP connection does with one request, received at once or in two parts.
use cndl.Base.{
  ℕ, suc, List, ◌+◌, ◌<◌, ◌≡◌, refl, sym, ap, ◌∙◌, [], ◌++◌, append-nil, Bytes, length, length-drop,
  take, take-append_length, drop, drop-append_length, ge→ltb, lt→ltb, none, some, Option, ok,
  index_of, found_fits, substr_from-eq-ok, arith,
}
use cndl.Request.Types.{Header}
use cndl.Request.Parse.{parse_header}
use cndl.Websocket.Types.{Event}
use cndl.Http.Types.{Surroundings, Ending, waits, Next, again, ends, Progress, Outcome}
use cndl.Http.Protocol.{
  read_header, process, go_on, try_block, handle, or_leave, and_then, round, serve_loop,
  on_data_received,
}
use cndl.Http.Head.{crlfcrlf}

-- A call starts with nothing consumed.
abbrev pub start : Option Header → Bytes → Progress
start header received = record { header = header; received = received; consumed = 0 }

-- A call that keeps the header of a request and waits for its body.
abbrev pub kept : Header → ℕ → Outcome
kept header consumed = record {
  header = some header;
  events = [];
  consumed = consumed;
  ending = waits;
}

-- The bytes go on with a header up to the place.
pub record IsHead (received : Bytes) (idx : ℕ) (header : Header) : Type 0 where
  pub found : index_of crlfcrlf received ≡ some idx
  pub read : parse_header (take (idx + 2) received) ≡ ok header

read_header-IsHead :
    {received : Bytes} {idx : ℕ} {header : Header}
    → IsHead received idx header
    → read_header (start none received) ≡ (
      record { header = some header; received = drop (idx + 4) received; consumed = idx + 4 },
      none,
    )
unfolding read_header
read_header-IsHead {received} {idx} h =
    let fits = found_fits crlfcrlf received h.found in
    let zero_add : 0 + (idx + 4) ≡ idx + 4 = omega arith in
    rw (h.found, h.read, zero_add, substr_from-eq-ok (idx + 4) received (omega arith))

module _ {Pattern : Type 0} (env : Surroundings Pattern) where
  -- The loop has nothing to do on an empty buffer.
  serve_loop-idle :
      (rounds consumed : ℕ)
      → serve_loop env (suc rounds) (record { header = none; received = []; consumed = consumed })
        ≡ record { header = none; events = []; consumed = consumed; ending = waits }
  unfolding serve_loop round try_block read_header handle and_then
  serve_loop-idle rounds consumed = refl

  -- What is done with a request whose body is complete, once `consumed` bytes are taken: the calls
  -- of the request and of its error response, and the wait for the next request if there is one.
  abbrev pub after : Next → Ending
  after again = waits
  after (ends ending) = ending

  abbrev pub served : Header → Bytes → ℕ → Outcome
  served header body consumed =
      let answered = process env header body in
      let handled = handle env answered.1 in
      record {
        header = none;
        events = answered.0 ++ handled.0;
        consumed = consumed;
        ending = after (or_leave env handled.1);
      }

  and_then-idle :
      (rounds consumed : ℕ) (events : List Event) (next : Next)
      → and_then env
          (record { header = none; received = []; consumed = consumed })
          events
          next
          (serve_loop env (suc rounds))
        ≡ record { header = none; events = events; consumed = consumed; ending = after next }
  unfolding and_then
  and_then-idle rounds consumed events again =
      rw (serve_loop-idle rounds consumed, append-nil events)
  and_then-idle rounds consumed events (ends ending) = refl

  -- A header and its body, with nothing behind them.
  try_block-body :
      (consumed : ℕ) (header : Header) (body : Bytes)
      → length body ≡ header.content_length
      → try_block env (record { header = some header; received = body; consumed = consumed })
        ≡ record {
          progress = record { header = none; received = []; consumed = consumed + length body };
          events = (process env header body).0;
          result = (process env header body).1;
        }
  unfolding try_block read_header
  try_block-body consumed header body h =
      let all = take-append_length (length body) body [] refl in
      let whole : take (length body) body ≡ body =
        ap (take (length body)) (sym (append-nil body)) ∙ all in
      let behind : drop (length body) body ≡ [] =
        ap (drop (length body)) (sym (append-nil body))
        ∙ drop-append_length (length body) body [] refl in
      rw (← h, ge→ltb (length body) (length body) (omega arith), whole, behind)

  serve_loop-body :
      (rounds consumed : ℕ) (header : Header) (body : Bytes)
      → length body ≡ header.content_length
      → serve_loop env
          (suc (suc rounds))
          (record { header = some header; received = body; consumed = consumed })
        ≡ served header body (consumed + length body)
  unfolding serve_loop round
  serve_loop-body rounds consumed header body h =
      let answered = process env header body in
      let handled = handle env answered.1 in
      rw (try_block-body consumed header body h) (
        and_then-idle rounds (consumed + length body) (answered.0 ++ handled.0)
          (or_leave env handled.1))

  -- A header that is found is read in the same round as its body.
  try_block-head :
      {received : Bytes} {idx : ℕ} {header : Header}
      → IsHead received idx header
      → try_block env (start none received)
        ≡ try_block env (record {
          header = some header;
          received = drop (idx + 4) received;
          consumed = idx + 4;
        })
  unfolding try_block read_header
  try_block-head h = ap (go_on env) (read_header-IsHead h)

  pub serve_loop-head :
      (rounds : ℕ) {received : Bytes} {idx : ℕ} {header : Header}
      → IsHead received idx header
      → serve_loop env (suc rounds) (start none received)
        ≡ serve_loop env (suc rounds) (record {
          header = some header;
          received = drop (idx + 4) received;
          consumed = idx + 4;
        })
  unfolding serve_loop round
  serve_loop-head rounds h = rw (try_block-head h)

  part_waits :
      (rounds consumed : ℕ) (header : Header) (part : Bytes)
      → length part < header.content_length
      → serve_loop env
          (suc rounds)
          (record { header = some header; received = part; consumed = consumed })
        ≡ kept header consumed
  unfolding serve_loop round try_block read_header handle and_then
  part_waits rounds consumed header part h = rw (lt→ltb (length part) header.content_length h)

  pub on_data_received-IsHead :
      {received : Bytes} {idx : ℕ} {header : Header}
      → IsHead received idx header
      → length (drop (idx + 4) received) ≡ header.content_length
      → on_data_received env none received
        ≡ served header (drop (idx + 4) received) (length received)
  unfolding on_data_received
  on_data_received-IsHead {received} {idx} {header} h full =
      let fits = found_fits crlfcrlf received h.found in
      let size = length-drop (idx + 4) received in
      let all : idx + 4 + length (drop (idx + 4) received) ≡ length received = omega arith in
      serve_loop-head (suc (length received)) h
      ∙ serve_loop-body (length received) (idx + 4) header (drop (idx + 4) received) full
      ∙ ap (served header (drop (idx + 4) received)) all

  pub on_data_received-part :
      {received : Bytes} {idx : ℕ} {header : Header}
      → IsHead received idx header
      → length (drop (idx + 4) received) < header.content_length
      → on_data_received env none received ≡ kept header (idx + 4)
  unfolding on_data_received
  on_data_received-part {received} {idx} {header} h short =
      serve_loop-head (suc (length received)) h
      ∙ part_waits (suc (length received)) (idx + 4) header (drop (idx + 4) received) short

  pub on_data_received-body :
      (header : Header) (body : Bytes)
      → length body ≡ header.content_length
      → on_data_received env (some header) body ≡ served header body (length body)
  unfolding on_data_received
  on_data_received-body header body full =
      let zero_add : 0 + length body ≡ length body = omega arith in
      serve_loop-body (length body) 0 header body full ∙ ap (served header body) zero_add
