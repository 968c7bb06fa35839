-- ===== src/Connection/Open.antt =====
-- A connection on which no write closes the socket.
use cndl.Base.{◌≡◌, refl, Bool, true, false, Bool-cases, inl, inr, List, [], ◌∷◌, ◌++◌, Bytes, All}
use cndl.Websocket.Types.{nothing}
use cndl.Connection.Transmit.{
  Job, Output, flush_loop, run_callback, flush_job, enqueue, enqueue_unless, is_empty, write, drain,
  on_writable,
}

-- The socket is open, and no job that waits has a callback.
pub record IsOpen (o : Output) : Type 0 where
  pub socket : o.is_open ≡ true
  pub jobs : All (λ j. j.cb ≡ nothing) o.transmit_jobs

All-snoc :
    (js : List Job) (j : Job)
    → All (λ k. k.cb ≡ nothing) js
    → j.cb ≡ nothing
    → All (λ k. k.cb ≡ nothing) (js ++ (j ∷ []))
All-snoc [] j hs h = (h, tt)
All-snoc (k ∷ js) j hs h = (hs.0, All-snoc js j hs.1 h)

flush_job-keeps :
    (job : Job) (o : Output)
    → job.cb ≡ nothing
    → ((flush_job job o).0.cb ≡ nothing)
      × ((flush_job job o).2.is_open ≡ o.is_open)
      × ((flush_job job o).2.transmit_jobs ≡ o.transmit_jobs)
unfolding flush_job run_callback
flush_job-keeps job o h =
    elim (Bool-cases (flush_loop job.out_buf job.bytes_sent o.answers).is_done) [
      | inl done ↦ rw (h, done) (refl, refl, refl)
      | inr left ↦ rw (h, left) (refl, refl, refl)
    ]

enqueue_unless-IsOpen :
    (job : Job) (is_done : Bool) (o : Output)
    → job.cb ≡ nothing
    → IsOpen o
    → IsOpen (enqueue_unless (job, is_done, o))
unfolding enqueue
enqueue_unless-IsOpen job true o h v = v
enqueue_unless-IsOpen job false o h v = record {
  socket = v.socket;
  jobs = All-snoc o.transmit_jobs job v.jobs h;
}

pub write-IsOpen : (bytes : Bytes) (o : Output) → IsOpen o → IsOpen (write bytes nothing o)
unfolding write
write-IsOpen bytes o v =
    let job : Job = record { out_buf = bytes; bytes_sent = 0; cb = nothing } in
    let (cb, socket, jobs) = flush_job-keeps job o refl in
    let tried : IsOpen (flush_job job o).2 = record {
      socket = rw socket v.socket;
      jobs = rw jobs v.jobs;
    } in
    elim (Bool-cases (is_empty o.transmit_jobs)) [
      | inl empty ↦ rw empty (enqueue_unless-IsOpen _ (flush_job job o).1 _ cb tried)
      | inr some_wait ↦ rw some_wait (enqueue_unless-IsOpen job false o refl v)
    ]

drain-IsOpen :
    (js : List Job) (o : Output)
    → All (λ j. j.cb ≡ nothing) js
    → o.is_open ≡ true
    → IsOpen (drain js o)
unfolding drain
drain-IsOpen [] o hs open_now = record { socket = open_now; jobs = tt }
drain-IsOpen (j ∷ js) o hs open_now =
    let (job, is_done, o') = flush_job j o in
    let (cb, socket, jobs) = flush_job-keeps j o hs.0 in
    elim (Bool-cases (flush_job j o).1) [
      | inl done ↦ rw done (drain-IsOpen js _ hs.1 (rw socket open_now))
      | inr left ↦ rw left (record { socket = rw socket open_now; jobs = (cb, hs.1) })
    ]

pub on_writable-IsOpen : (o : Output) → IsOpen o → IsOpen (on_writable o)
unfolding on_writable
on_writable-IsOpen o v = drain-IsOpen o.transmit_jobs o v.jobs v.socket
