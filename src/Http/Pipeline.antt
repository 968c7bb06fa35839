-- ===== src/Http/Pipeline.antt =====
-- Two requests in one buffer.
use cndl.Base.{
  ℕ, suc, ◌+◌, ◌<◌, ◌≡◌, refl, ap, ◌∙◌, List, [], ◌∷◌, ◌++◌, append-nil, Bytes, codes, length,
  length-append, take-append_length, drop-append_length, lt→ltb, ge→ltb, none, some, Result, ok,
  out_of_range, substr_from, arith,
}
use cndl.Request.Fields.{crlf}
use cndl.Request.Types.{Header}
use cndl.Response.Types.{from_error, serialize}
use cndl.Websocket.Types.{Event, write, nothing}
use cndl.Http.Types.{Surroundings, stops, again, Progress, Outcome}
use cndl.Http.Protocol.{
  read_header, process, try_block, handle, and_then, round, serve_loop, on_data_received,
}
use cndl.Http.Head.{request_head}
use cndl.Http.Request.{IsHead, serve_loop-head}
use cndl.Http.Answer.{IsRequest, request-IsHead}

-- A header whose end is found, where the bytes already consumed are more than those behind it.
read_header-behind :
    (consumed : ℕ) {received : Bytes} {idx : ℕ} {header : Header}
    → IsHead received idx header
    → length received < consumed + (idx + 4)
    → read_header (record { header = none; received = received; consumed = consumed }) ≡ (
      record { header = some header; received = received; consumed = consumed + (idx + 4) },
      some out_of_range,
    )
unfolding read_header substr_from
read_header-behind consumed {received} {idx} h over =
    rw (h.found, h.read, lt→ltb (length received) (consumed + (idx + 4)) over)

abbrev known : Header → Bytes → ℕ → Progress
known header received consumed = record {
  header = some header;
  received = received;
  consumed = consumed;
}

abbrev pub stopped : Header → List Event → ℕ → Outcome
stopped header events consumed = record {
  header = some header;
  events = events;
  consumed = consumed;
  ending = stops;
}

module _ {Pattern : Type 0} (env : Surroundings Pattern) where
  abbrev pub uncaught : Result Bytes
  uncaught = serialize (from_error 500 (codes "uncaught error") env.dispatcher.error_body_generator)

  serve_loop-behind :
      (rounds consumed : ℕ) {received bytes : Bytes} {idx : ℕ} {header : Header}
      → IsHead received idx header
      → length received < consumed + (idx + 4)
      → uncaught ≡ ok bytes
      → serve_loop env
          (suc rounds)
          (record { header = none; received = received; consumed = consumed })
        ≡ record {
          header = some header;
          events = write bytes nothing ∷ [];
          consumed = consumed + (idx + 4);
          ending = stops;
        }
  unfolding serve_loop round try_block handle and_then
  serve_loop-behind rounds consumed h over sent = rw (read_header-behind consumed h over, sent)

  -- A request that is complete, with more bytes behind its body.
  pub try_block-more :
      (consumed : ℕ) (header : Header) (body more : Bytes)
      → length body ≡ header.content_length
      → try_block env
          (record { header = some header; received = body ++ more; consumed = consumed })
        ≡ record {
          progress = record { header = none; received = more; consumed = consumed + length body };
          events = (process env header body).0;
          result = (process env header body).1;
        }
  unfolding try_block read_header
  try_block-more consumed header body more h =
      let size = length-append body more in
      rw (
        ← h,
        ge→ltb (length (body ++ more)) (length body) (omega arith),
        take-append_length (length body) body more refl,
        drop-append_length (length body) body more refl,
      )

  serve_loop-more :
      (rounds consumed : ℕ) (header : Header) (body more : Bytes)
      → length body ≡ header.content_length
      → (process env header body).1 ≡ ok again
      → serve_loop env
          (suc rounds)
          (record { header = some header; received = body ++ more; consumed = consumed })
        ≡ record (serve_loop env rounds
            (record { header = none; received = more; consumed = consumed + length body })) {
              events =
                  (process env header body).0
                  ++ (serve_loop env rounds (record {
                    header = none;
                    received = more;
                    consumed = consumed + length body;
                  })).events;
            }
  unfolding serve_loop round handle and_then
  serve_loop-more rounds consumed header body more h answered =
      rw (
        try_block-more consumed header body more h,
        answered,
        append-nil (process env header body).0,
      )

  serve_loop-two :
      (rounds consumed : ℕ) (header : Header) (body : Bytes) {second bytes : Bytes} {idx : ℕ}
      {header2 : Header}
      → length body ≡ header.content_length
      → (process env header body).1 ≡ ok again
      → IsHead second idx header2
      → length second < consumed + length body + (idx + 4)
      → uncaught ≡ ok bytes
      → serve_loop env (suc (suc rounds)) (known header (body ++ second) consumed)
        ≡ stopped header2
            ((process env header body).0 ++ (write bytes nothing ∷ []))
            (consumed + length body + (idx + 4))
  serve_loop-two rounds consumed header body {second} full answered h over sent = rw (
    serve_loop-more (suc rounds) consumed header body second full answered,
    serve_loop-behind rounds (consumed + length body) h over sent,
  )

  -- Two requests that a client writes one behind the other into one buffer, the first of them answered
  -- without an exception and without the end of the connection: with less behind the second header than
  -- the first request has bytes, the second request is not answered. Its header is taken, the error 500
  -- is sent, and the connection gets no further data.
  pub on_data_received-pipelined :
      (method target version method2 target2 version2 : Bytes)
      (fields fields2 : List (Bytes × Bytes)) (header header2 : Header) (body tail bytes : Bytes)
      → IsRequest method target version fields header
      → length body ≡ header.content_length
      → (process env header body).1 ≡ ok again
      → IsRequest method2 target2 version2 fields2 header2
      → length tail < length (request_head method target version fields) + 2 + length body
      → uncaught ≡ ok bytes
      → on_data_received env none (
          request_head method target version fields
          ++ (crlf ++ (body ++ (request_head method2 target2 version2 fields2 ++ (crlf ++ tail)))))
        ≡ stopped header2 ((process env header body).0 ++ (write bytes nothing ∷ [])) (
            length (request_head method target version fields)
            + 2
            + length body
            + (length (request_head method2 target2 version2 fields2) + 2))
  unfolding on_data_received
  on_data_received-pipelined method target version method2 target2 version2 fields fields2 header
        header2 body tail bytes r full answered r2 short sent =
      let head = request_head method target version fields in
      let head2 = request_head method2 target2 version2 fields2 in
      let second = head2 ++ (crlf ++ tail) in
      let received = head ++ (crlf ++ (body ++ second)) in
      let events = (process env header body).0 ++ (write bytes nothing ∷ []) in
      let (idx, h, size, behind) = request-IsHead r (body ++ second) in
      let (idx2, h2, size2, behind2) = request-IsHead r2 tail in
      let all = length-append head2 (crlf ++ tail) in
      let total : idx + 4 + length body + (idx2 + 4)
          ≡ length head + 2 + length body + (length head2 + 2) =
        omega arith in
      serve_loop-head env (suc (length received)) h
      ∙ ap (λ v. serve_loop env (suc (suc (length received))) (known header v (idx + 4))) behind
      ∙ serve_loop-two (length received) (idx + 4) header body full answered h2 (omega arith) sent
      ∙ ap (stopped header2 events) total
