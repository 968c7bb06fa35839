-- ===== src/Connection/Fifo.antt =====
-- `write` and the flush on `EPOLLOUT` implement a first-in first-out queue.
use cndl.Base.{
  ℕ, ◌+◌, ◌-◌, ◌^◌, ◌≤◌, ◌<◌, ◌≡◌, refl, sym, ap, ◌∙◌, inl, inr, Bool, true, false, List, [], ◌∷◌,
  ◌++◌, Bytes, All, length, arith, Bool-cases, append-nil, append_assoc, length-drop, length-append,
}
use cndl.Websocket.Types.{AfterSent}
use cndl.Connection.Transmit.{
  Job, Output, sub64, flush_job, enqueue, enqueue_unless, is_empty, write, settle, drain,
  on_writable,
}
use cndl.Connection.Flush.{IsFine}
use cndl.Connection.Queue.{
  rest_of, pending, callbacks, waiting, Fits, IsValid, Flushes, flush_job-Flushes,
}

-- All bytes written so far, and all callbacks handed over so far, in their order.
abbrev pub total : Output → Bytes
total o = o.sent ++ pending o.transmit_jobs

abbrev pub owed : Output → List AfterSent
owed o = o.called ++ waiting o.transmit_jobs

pending-concat : (js : List Job) (j : Job) → pending (js ++ (j ∷ [])) ≡ pending js ++ rest_of j
pending-concat [] j = append-nil (rest_of j)
pending-concat (x ∷ js) j = rw (pending-concat js j, append_assoc)

waiting-concat : (js : List Job) (j : Job) → waiting (js ++ (j ∷ [])) ≡ waiting js ++ callbacks j.cb
waiting-concat [] j = append-nil (callbacks j.cb)
waiting-concat (x ∷ js) j = rw (waiting-concat js j, append_assoc)

Fits-concat : (js : List Job) (j : Job) → All Fits js → Fits j → All Fits (js ++ (j ∷ []))
Fits-concat [] j h f = (f, tt)
Fits-concat (x ∷ js) j h f = (h.0, Fits-concat js j h.1 f)

sub64-le : (a b : ℕ) → b ≤ a → a - b < 2 ^ 64 → sub64 a b ≡ a - b
sub64-le a b h k = omega arith

-- What an operation does: the output stays valid, and these bytes and callbacks come behind.
abbrev pub Adds : Output → Bytes → List AfterSent → Output → Type 0
Adds o buf cbs o' = IsValid o' × (total o' ≡ total o ++ buf) × (owed o' ≡ owed o ++ cbs)

enqueue-Adds :
    (job : Job) (o : Output)
    → IsValid o
    → Fits job
    → length (pending o.transmit_jobs) + length (rest_of job) < 2 ^ 64
    → Adds o (rest_of job) (callbacks job.cb) (enqueue job o)
unfolding enqueue
enqueue-Adds job o v f h =
    let size = length-drop job.bytes_sent job.out_buf in
    let both = length-append (pending o.transmit_jobs) (rest_of job) in
    let less = sub64-le (length job.out_buf) job.bytes_sent f (omega arith) in
    (
      record {
        fine = v.fine;
        fits = Fits-concat o.transmit_jobs job v.fits f;
        size = rw (pending-concat o.transmit_jobs job, less) (omega arith);
        bound = rw (pending-concat o.transmit_jobs job) (omega arith);
      },
      rw (pending-concat o.transmit_jobs job)
          (sym (append_assoc o.sent (pending o.transmit_jobs) (rest_of job))),
      rw (waiting-concat o.transmit_jobs job)
          (sym (append_assoc o.called (waiting o.transmit_jobs) (callbacks job.cb))),
    )

is_empty-eq-nil {ℓ} : {A : Type ℓ} (xs : List A) → is_empty xs ≡ true → xs ≡ []
is_empty-eq-nil [] h = refl
is_empty-eq-nil (x ∷ xs) h = cc

-- The first write of a buffer, when no job waits.
enqueue_unless-Adds :
    (job : Job) (o : Output) (r : Job × Bool × Output)
    → IsValid o
    → o.transmit_jobs ≡ []
    → length (rest_of job) < 2 ^ 64
    → Flushes job o r
    → Adds o (rest_of job) (callbacks job.cb) (enqueue_unless r)
enqueue_unless-Adds job o (job', true, o') v none h f =
    let (spent, ran) = f.finishes refl in
    let e = f.same_jobs ∙ none in
    (
      record {
        fine = f.fine;
        fits = rw e tt;
        size = rw e (omega (arith, v.size, ap (λ js. length (pending js)) none, f.same_size));
        bound = rw e (omega arith);
      },
      rw (e, none) (cc (append-nil o.sent, f.bytes, ap (◌++◌ o'.sent) spent)),
      rw (e, none) (cc (append-nil o'.called, append-nil o.called, ran)),
    )
enqueue_unless-Adds job o (job', false, o') v none h f =
    let e = f.same_jobs ∙ none in
    let empty : length (pending o'.transmit_jobs) ≡ 0 = rw e in
    let less : length (rest_of job') ≤ length (rest_of job) = omega (
      arith,
      length-drop job'.bytes_sent job'.out_buf,
      length-drop job.bytes_sent job.out_buf,
      ap length f.same_buf,
    ) in
    let v' : IsValid o' = record {
      fine = f.fine;
      fits = rw e tt;
      size = rw e (omega (arith, v.size, ap (λ js. length (pending js)) none, f.same_size));
      bound = rw e (omega arith);
    } in
    let (valid, t, w) = enqueue-Adds job' o' v' f.fits (omega arith) in
    (
      valid,
      t ∙ rw (e, none) (cc (append-nil o'.sent, append-nil o.sent, f.bytes)),
      w ∙ rw (e, none) (cc (f.leaves refl, f.same_cb)),
    )

-- `write` keeps the output valid and puts the buffer and its callback behind all that was written
-- before, whether the socket takes all of it, a part or nothing, and whether or not jobs wait.
pub write-Adds :
    (buf : Bytes) (cb : AfterSent) (o : Output)
    → IsValid o
    → length (pending o.transmit_jobs) + length buf < 2 ^ 64
    → Adds o buf (callbacks cb) (write buf cb o)
unfolding write
write-Adds buf cb o v h =
    let job : Job = record { out_buf = buf; bytes_sent = 0; cb = cb } in
    elim (Bool-cases (is_empty o.transmit_jobs)) [
      | inl e ↦ rw e (
          enqueue_unless-Adds job o (flush_job job o) v (is_empty-eq-nil _ e) (omega arith)
            (flush_job-Flushes job o (omega arith) v.fine))
      | inr e ↦ rw e (enqueue-Adds job o v (omega arith) (omega arith))
    ]

-- What the loop over the jobs `js` does, with the output `o` at its start.
abbrev Drains : List Job → Output → Output → Type 0
Drains js o o' = IsValid o' × (total o' ≡ o.sent ++ pending js) × (owed o' ≡ o.called ++ waiting js)

settle-size :
    (j j' : Job) (o o' : Output) (n : ℕ)
    → Fits j'
    → j'.out_buf ≡ j.out_buf
    → j.bytes_sent ≤ j'.bytes_sent
    → o.out_buffer_size ≡ length (rest_of j) + n
    → length (rest_of j) + n < 2 ^ 64
    → o'.out_buffer_size ≡ o.out_buffer_size
    → (settle j j' o').out_buffer_size ≡ length (rest_of j') + n
settle-size j j' o o' n f e g h k s =
    let a = length-drop j.bytes_sent j.out_buf in
    let a' = length-drop j'.bytes_sent j'.out_buf in
    let same = ap length e in
    let b = sub64-le (length j.out_buf) j.bytes_sent (omega arith) (omega arith) in
    let b' = sub64-le (length j'.out_buf) j'.bytes_sent f (omega arith) in rw (b, b') (omega arith)

drain-Drains :
    (js : List Job) (o : Output)
    → All Fits js
    → All IsFine o.answers
    → o.out_buffer_size ≡ length (pending js)
    → length (pending js) < 2 ^ 64
    → Drains js o (drain js o)
unfolding drain
drain-Drains [] o fits fine size bound =
    (record { fine = fine; fits = tt; size = size; bound = omega arith }, refl, refl)
drain-Drains (j ∷ js) o fits fine size bound =
    let f = flush_job-Flushes j o fits.0 fine in
    let r = flush_job j o in
    let both = length-append (rest_of j) (pending js) in
    let settled = settle j r.0 r.2 in
    let size' =
      settle-size j r.0 o r.2 (length (pending js)) f.fits f.same_buf f.grows (omega arith)
        (omega arith) f.same_size in
    elim (Bool-cases r.1) [
      | inl e ↦
          let (spent, ran) = f.finishes e in
          let none_left = ap length spent in
          let took : r.2.sent ≡ o.sent ++ rest_of j =
            cc (append-nil r.2.sent, ap (◌++◌ r.2.sent) spent, f.bytes) in
          let (valid, t, w) = drain-Drains js settled fits.1 f.fine (omega arith) (omega arith) in
          rw e (
            valid,
            t ∙ ap (λ x. x ++ pending js) took ∙ append_assoc o.sent (rest_of j) (pending js),
            w ∙ ap (λ x. x ++ waiting js) ran ∙ append_assoc o.called (callbacks j.cb) (waiting js),
          )
      | inr e ↦
          let shorter : length (rest_of r.0) ≤ length (rest_of j) = omega (
            arith,
            length-drop r.0.bytes_sent r.0.out_buf,
            length-drop j.bytes_sent j.out_buf,
            ap length f.same_buf,
            f.grows,
          ) in
          let joined = length-append (rest_of r.0) (pending js) in
          rw e (
            record {
              fine = f.fine;
              fits = (f.fits, fits.1);
              size = size' ∙ sym joined;
              bound = omega arith;
            },
            sym (append_assoc r.2.sent (rest_of r.0) (pending js))
                ∙ ap (λ x. x ++ pending js) f.bytes
                ∙ append_assoc o.sent (rest_of j) (pending js),
            cc (f.leaves e, f.same_cb),
          )
    ]

-- A flush on `EPOLLOUT` keeps the output valid, and adds, loses and repeats no byte and no
-- callback: what the socket has taken, followed by what is pending, is what it was before.
pub on_writable-Adds : (o : Output) → IsValid o → Adds o [] [] (on_writable o)
unfolding on_writable
on_writable-Adds o v =
    let (valid, t, w) = drain-Drains o.transmit_jobs o v.fits v.fine v.size v.bound in
    (valid, t ∙ sym (append-nil (total o)), w ∙ sym (append-nil (owed o)))
