-- ===== src/Connection/Progress.antt =====
-- When the socket takes bytes the queue runs empty; and what a failing `::send` does.
use cndl.Base.{
  ℕ, suc, ◌+◌, ◌-◌, ◌^◌, ◌<◌, ◌≤◌, ◌≡◌, refl, List, [], ◌∷◌, Bytes, All, length, arith, append-nil,
  length-append, length-drop, true, ltb, inl, inr, Bool-cases, min, ge→ltb, lt→ltb, tests,
}
use cndl.Websocket.Types.{AfterSent, nothing}
use cndl.Connection.Transmit.{
  Answer, takes, would_block, fails, Job, Output, Flushed, flush_loop, flush_job, run_callback,
  write, on_writable, drain, settle,
}
use cndl.Connection.Queue.{pending, rest_of, Fits}

abbrev pub Takes : Answer → Type 0
Takes (takes most) = Unit
Takes _ = ⊥

-- Each answer moves a byte at least.
abbrev Finishes : Bytes → ℕ → List Answer → Flushed → Type 0
Finishes buf n answers f =
    (f.is_done ≡ true) × All Takes f.answers × (length answers + n ≤ length f.answers + length buf)

flush_loop-Finishes :
    (buf : Bytes) (n : ℕ) (answers : List Answer)
    → n ≤ length buf
    → All Takes answers
    → length buf ≤ length answers + n
    → Finishes buf n answers (flush_loop buf n answers)
unfolding flush_loop
flush_loop-Finishes buf n [] h t enough = ground arith
flush_loop-Finishes buf n (takes most ∷ left) h t enough = elim (Bool-cases (ltb n (length buf))) [
  | inr full ↦ rw full (refl, t, omega arith)
  | inl more ↦
      let w = min (suc most) (length buf - n) in
      let later = flush_loop-Finishes buf (n + w) left (omega arith) t.1 (omega tests) in
      rw more (later.0, later.1, omega tests)
]
flush_loop-Finishes buf n (would_block ∷ left) h t enough = absurd t.0
flush_loop-Finishes buf n (fails ∷ left) h t enough = absurd t.0

run_callback-answers : (cb : AfterSent) (o : Output) → (run_callback cb o).answers ≡ o.answers
unfolding run_callback
run_callback-answers nothing o = refl
run_callback-answers _ o = refl

flush_job-Finishes :
    (j : Job) (o : Output)
    → Fits j
    → All Takes o.answers
    → length (rest_of j) ≤ length o.answers
    → ((flush_job j o).1 ≡ true)
      × All Takes (flush_job j o).2.answers
      × (length o.answers ≤ length (flush_job j o).2.answers + length (rest_of j))
unfolding flush_job
flush_job-Finishes j o h t enough =
    let size = length-drop j.bytes_sent j.out_buf in
    let (e, t', l) = flush_loop-Finishes j.out_buf j.bytes_sent o.answers h t (omega arith) in
    rw (e, run_callback-answers) (refl, t', omega arith)

drain-eq-nil :
    (js : List Job) (o : Output)
    → All Fits js
    → All Takes o.answers
    → length (pending js) ≤ length o.answers
    → (drain js o).transmit_jobs ≡ []
unfolding drain
drain-eq-nil [] o f t enough = refl
drain-eq-nil (j ∷ js) o f t enough =
    let both = length-append (rest_of j) (pending js) in
    let (e, t', l) = flush_job-Finishes j o f.0 t (omega arith) in
    rw e (drain-eq-nil js (settle j (flush_job j o).0 (flush_job j o).2) f.1 t' (omega arith))

-- When the socket becomes writable and takes bytes at each call of `::send`, for as many calls as
-- there are pending bytes, then no job is left.
pub on_writable-eq-nil :
    (o : Output)
    → All Fits o.transmit_jobs
    → All Takes o.answers
    → length (pending o.transmit_jobs) ≤ length o.answers
    → (on_writable o).transmit_jobs ≡ []
unfolding on_writable
on_writable-eq-nil o f t enough = drain-eq-nil o.transmit_jobs o f t enough

abbrev whole : ℕ → List Answer → Flushed
whole n left = record { bytes_sent = n; taken = []; answers = left; is_done = true }

flush_loop-whole :
    (buf : Bytes) (n : ℕ) (left : List Answer)
    → length buf ≤ n
    → flush_loop buf n left ≡ whole n left
unfolding flush_loop
flush_loop-whole buf n [] h = rw (ge→ltb n (length buf) h)
flush_loop-whole buf n (takes most ∷ left) h = rw (ge→ltb n (length buf) h)
flush_loop-whole buf n (would_block ∷ left) h = rw (ge→ltb n (length buf) h)
flush_loop-whole buf n (fails ∷ left) h = rw (ge→ltb n (length buf) h)

flush_loop-fails :
    (buf : Bytes) (left : List Answer)
    → 0 < length buf
    → length buf < 2 ^ 64
    → flush_loop buf 0 (fails ∷ left) ≡ whole (2 ^ 64 - 1) left
unfolding flush_loop
flush_loop-fails buf left some short =
    rw (lt→ltb 0 (length buf) some) (flush_loop-whole buf (2 ^ 64 - 1) left (omega arith))

-- When no job waits and the first `::send` of a buffer that is not empty fails with an error other
-- than that it would block, `write` takes the whole buffer for sent: it runs the callback, keeps no
-- job, and the socket has taken no byte of it.
pub write-fails :
    (buf : Bytes) (cb : AfterSent) (o : Output) (left : List Answer)
    → o.transmit_jobs ≡ []
    → o.answers ≡ fails ∷ left
    → 0 < length buf
    → length buf < 2 ^ 64
    → write buf cb o ≡ run_callback cb (record o { answers = left })
unfolding write flush_job
write-fails buf cb o left none failed some short =
    rw (none, failed, flush_loop-fails buf left some short) (ground (arith, append-nil o.sent))
