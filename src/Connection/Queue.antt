-- ===== src/Connection/Queue.antt =====
-- The transmit queue is a queue of bytes and of callbacks: what the socket has taken, followed by
-- what is pending, is what was written.
use cndl.Base.{
  ◌^◌, ◌≤◌, ◌<◌, ◌≡◌, refl, sym, ap, ◌∙◌, inl, inr, Bool, true, false, List, [], ◌∷◌, ◌++◌, Bytes,
  All, length, drop, arith, Bool-cases, append-nil, append_assoc,
}
use cndl.Websocket.Types.{AfterSent, nothing}
use cndl.Connection.Transmit.{Job, Output, flush_loop, run_callback, flush_job}
use cndl.Connection.Flush.{IsFine, flush_loop-Sends, drop-all}

abbrev pub rest_of : Job → Bytes
rest_of j = drop j.bytes_sent j.out_buf

-- The bytes that are written and not yet taken by the socket.
abbrev pub pending : List Job → Bytes
pending [] = []
pending (j ∷ js) = rest_of j ++ pending js

-- An empty callback is never run.
abbrev pub callbacks : AfterSent → List AfterSent
callbacks nothing = []
callbacks cb = cb ∷ []

-- The callbacks that are still to run.
abbrev pub waiting : List Job → List AfterSent
waiting [] = []
waiting (j ∷ js) = callbacks j.cb ++ waiting js

abbrev pub Fits : Job → Type 0
Fits j = j.bytes_sent ≤ length j.out_buf

-- The answers to come hold no failure; no job has sent more than it has; `outBufferSize` is the
-- number of pending bytes, and fits its type.
pub record IsValid (o : Output) : Type 0 where
  pub fine : All IsFine o.answers
  pub fits : All Fits o.transmit_jobs
  pub size : o.out_buffer_size ≡ length (pending o.transmit_jobs)
  pub bound : length (pending o.transmit_jobs) < 2 ^ 64

-- What `flush_job` does to a job and the output.
pub record Flushes (j : Job) (o : Output) (r : Job × Bool × Output) : Type 0 where
  pub same_buf : r.0.out_buf ≡ j.out_buf
  pub same_cb : r.0.cb ≡ j.cb
  pub fits : Fits r.0
  pub grows : j.bytes_sent ≤ r.0.bytes_sent
  pub bytes : r.2.sent ++ rest_of r.0 ≡ o.sent ++ rest_of j
  pub fine : All IsFine r.2.answers
  pub same_size : r.2.out_buffer_size ≡ o.out_buffer_size
  pub same_jobs : r.2.transmit_jobs ≡ o.transmit_jobs
  pub finishes : r.1 ≡ true → (rest_of r.0 ≡ []) × (r.2.called ≡ o.called ++ callbacks j.cb)
  pub leaves : r.1 ≡ false → r.2.called ≡ o.called

run_callback-called :
    (cb : AfterSent) (o : Output) → (run_callback cb o).called ≡ o.called ++ callbacks cb
unfolding run_callback
run_callback-called nothing o = sym (append-nil o.called)
run_callback-called _ o = refl

abbrev Same : Output → Output → Type 0
Same a b =
    (a.sent ≡ b.sent)
    × (a.answers ≡ b.answers)
    × (a.out_buffer_size ≡ b.out_buffer_size)
    × (a.transmit_jobs ≡ b.transmit_jobs)

run_callback-Same : (cb : AfterSent) (o : Output) → Same (run_callback cb o) o
unfolding run_callback
run_callback-Same nothing o = (refl, refl, refl, refl)
run_callback-Same _ o = (refl, refl, refl, refl)

pub flush_job-Flushes :
    (j : Job) (o : Output) → Fits j → All IsFine o.answers → Flushes j o (flush_job j o)
unfolding flush_job
flush_job-Flushes j o h fine =
    let f = flush_loop j.out_buf j.bytes_sent o.answers in
    let s = flush_loop-Sends j.out_buf j.bytes_sent o.answers h fine in
    let o' = record o { answers = f.answers; sent = o.sent ++ f.taken } in
    let kept =
      append_assoc o.sent f.taken (drop f.bytes_sent j.out_buf) ∙ ap (◌++◌ o.sent) s.splits in
    elim (Bool-cases f.is_done) [
      | inl e ↦ rw e (record {
        same_buf = refl;
        same_cb = refl;
        fits = s.fits;
        grows = s.grows;
        bytes = rw ((run_callback-Same j.cb o').0) kept;
        fine = rw ((run_callback-Same j.cb o').1) s.fine;
        same_size = (run_callback-Same j.cb o').2;
        same_jobs = (run_callback-Same j.cb o').3;
        finishes = λ _. (
          drop-all f.bytes_sent j.out_buf (omega (arith, s.all_sent e)),
          run_callback-called j.cb o',
        );
        leaves = λ x. cc;
      })
      | inr e ↦ rw e (record {
        same_buf = refl;
        same_cb = refl;
        fits = s.fits;
        grows = s.grows;
        bytes = kept;
        fine = s.fine;
        same_size = refl;
        same_jobs = refl;
        finishes = λ x. cc;
        leaves = λ _. refl;
      })
    ]
