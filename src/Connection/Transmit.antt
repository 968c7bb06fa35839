-- ===== src/Connection/Transmit.antt =====
-- `flush_job`, `Pimpl::write` and the part of `operator()` on `EPOLLOUT`. The calls of `::send` are
-- answered by a list that the environment chooses; behind its end the socket blocks.
use cndl.Base.{
  ℕ, suc, ◌+◌, ◌-◌, ◌%◌, ◌^◌, min, Bool, true, false, List, [], ◌∷◌, ◌++◌, Bytes, length, take,
  drop, ltb, if◌then◌else◌,
}
use cndl.Websocket.Types.{AfterSent, nothing, closes}

-- What a call of `::send` with n > 0 bytes answers: it takes up to `most + 1` of them, it would
-- block (`EWOULDBLOCK`, `EAGAIN`), or it fails with another error and returns -1.
pub data Answer : Type 0 where
  takes : ℕ → Answer
  would_block fails : Answer

-- `TransmitJob`: the buffer, the number of bytes sent, and the callback.
pub record Job : Type 0 where
  pub out_buf : Bytes
  pub bytes_sent : ℕ
  pub cb : AfterSent

-- The members of `Pimpl` for the output, with the answers still to come, the bytes that the socket
-- has taken so far, the callbacks that have run so far, whether `EPOLLOUT` is armed, and whether
-- the socket is open.
pub record Output : Type 0 where
  pub transmit_jobs : List Job
  pub out_buffer_size : ℕ
  pub answers : List Answer
  pub sent : Bytes
  pub called : List AfterSent
  pub armed : Bool
  pub is_open : Bool

-- Addition and subtraction of `size_t`.
abbrev pub add64 : ℕ → ℕ → ℕ
add64 a b = (a + b) % 2 ^ 64

abbrev pub sub64 : ℕ → ℕ → ℕ
sub64 a b = (a + 2 ^ 64 - b) % 2 ^ 64

-- What the loop of `flush_job` leaves: the bytes sent of the job, those that the socket took, the
-- answers left, and whether the loop came to the end of the buffer.
pub record Flushed : Type 0 where
  pub bytes_sent : ℕ
  pub taken : Bytes
  pub answers : List Answer
  pub is_done : Bool

abbrev flushed : ℕ → List Answer → Bool → Flushed
flushed n left is_done = record { bytes_sent = n; taken = []; answers = left; is_done = is_done }

-- The loop of `flush_job`; `bytes_sent += w` with `w` = -1 wraps round.
unfoldable pub flush_loop : Bytes → ℕ → List Answer → Flushed
flush_loop out_buf bytes_sent [] =
    flushed bytes_sent [] (if ltb bytes_sent (length out_buf) then false else true)
flush_loop out_buf bytes_sent (takes most ∷ left) =
    let w = min (suc most) (length out_buf - bytes_sent) in
    let rest = flush_loop out_buf (bytes_sent + w) left in
    if ltb bytes_sent (length out_buf)
    then record rest { taken = take w (drop bytes_sent out_buf) ++ rest.taken }
    else flushed bytes_sent (takes most ∷ left) true
flush_loop out_buf bytes_sent (would_block ∷ left) =
    if ltb bytes_sent (length out_buf)
    then flushed bytes_sent left false
    else flushed bytes_sent (would_block ∷ left) true
flush_loop out_buf bytes_sent (fails ∷ left) =
    let rest = flush_loop out_buf (add64 bytes_sent (2 ^ 64 - 1)) left in
    if ltb bytes_sent (length out_buf) then rest else flushed bytes_sent (fails ∷ left) true

-- `if (cb) cb()`: the callback of `Websocket::close` closes the socket.
abbrev pub is_close : AfterSent → Bool
is_close closes = true
is_close _ = false

unfoldable pub run_callback : AfterSent → Output → Output
run_callback nothing o = o
run_callback cb o = record o {
  called = o.called ++ (cb ∷ []);
  is_open = if is_close cb then false else o.is_open;
}

-- `flush_job`: the job with its bytes sent, whether it is done, and the output.
unfoldable pub flush_job : Job → Output → Job × Bool × Output
flush_job job o =
    let f = flush_loop job.out_buf job.bytes_sent o.answers in
    let o' = record o { answers = f.answers; sent = o.sent ++ f.taken } in
    (
      record job { bytes_sent = f.bytes_sent },
      f.is_done,
      if f.is_done then run_callback job.cb o' else o',
    )

-- The job goes to the end of the queue, and `EPOLLOUT` is armed.
unfoldable pub enqueue : Job → Output → Output
enqueue job o = record o {
  out_buffer_size = add64 o.out_buffer_size (sub64 (length job.out_buf) job.bytes_sent);
  transmit_jobs = o.transmit_jobs ++ (job ∷ []);
  armed = true;
}

abbrev pub is_empty {ℓ} : {A : Type ℓ} → List A → Bool
is_empty [] = true
is_empty (x ∷ xs) = false

-- The job is sent at once if no other waits, and what is not sent is queued.
abbrev pub enqueue_unless : Job × Bool × Output → Output
enqueue_unless (job, true, o) = o
enqueue_unless (job, false, o) = enqueue job o

unfoldable pub write : Bytes → AfterSent → Output → Output
write out_buf on_after_sent o =
    let job : Job = record { out_buf = out_buf; bytes_sent = 0; cb = on_after_sent } in
    if is_empty o.transmit_jobs then enqueue_unless (flush_job job o) else enqueue job o

-- `outBufferSize -= to_send - remaining`
abbrev pub settle : Job → Job → Output → Output
settle before after o =
    let to_send = sub64 (length before.out_buf) before.bytes_sent in
    let remaining = sub64 (length after.out_buf) after.bytes_sent in
    record o { out_buffer_size = sub64 o.out_buffer_size (sub64 to_send remaining) }

-- The loop over the queue: a job that is done is erased, and one that is not ends the loop.
unfoldable pub drain : List Job → Output → Output
drain [] o = record o { transmit_jobs = [] }
drain (j ∷ js) o =
    let (job, is_done, o') = flush_job j o in
    let settled = settle j job o' in
    let rest = drain js settled in
    if is_done then rest else record settled { transmit_jobs = job ∷ js }

-- The branch of `operator()` on `EPOLLOUT`, up to the test on the protocol.
unfoldable pub on_writable : Output → Output
on_writable o = drain o.transmit_jobs o
