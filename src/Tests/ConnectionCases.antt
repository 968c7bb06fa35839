-- ===== src/Tests/ConnectionCases.antt =====
-- The theorems on the output of a connection at concrete states.
use cndl.Base.{◌≡◌, refl, true, false, List, [], ◌∷◌, codes, arith}
use cndl.Websocket.Types.{app}
use cndl.Connection.Transmit.{Answer, takes, fails, Job, Output, run_callback, write, on_writable}
use cndl.Connection.Progress.{on_writable-eq-nil, write-fails}

abbrev pub opened : List Answer → Output
opened answers = record {
  transmit_jobs = [];
  out_buffer_size = 0;
  answers = answers;
  sent = [];
  called = [];
  armed = false;
  is_open = true;
}

abbrev half_sent : Job
half_sent = record { out_buf = codes "abcd"; bytes_sent = 2; cb = app 7 }

abbrev pub waiting_for : List Answer → Output
waiting_for answers = record (opened answers) {
  transmit_jobs = half_sent ∷ [];
  out_buffer_size = 2;
}

on_writable-eq-nil_example : (on_writable (waiting_for (takes 0 ∷ takes 0 ∷ []))).transmit_jobs ≡ []
on_writable-eq-nil_example =
    on_writable-eq-nil (waiting_for (takes 0 ∷ takes 0 ∷ [])) (omega arith, tt) (tt, (tt, tt))
      (omega arith)

write-fails_example :
    write (codes "ab") (app 3) (opened (fails ∷ []))
    ≡ run_callback (app 3) (record (opened (fails ∷ [])) { answers = [] })
write-fails_example =
    write-fails (codes "ab") (app 3) (opened (fails ∷ [])) [] refl refl (omega arith) (omega arith)
