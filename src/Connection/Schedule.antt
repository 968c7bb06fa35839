-- ===== src/Connection/Schedule.antt =====
-- Whole schedules of writes and flushes.
use cndl.Base.{
  ◌+◌, ◌^◌, ◌<◌, sym, ap, ◌∙◌, List, [], ◌∷◌, ◌++◌, Bytes, length, arith, append-nil, append_assoc,
  length-append,
}
use cndl.Websocket.Types.{AfterSent}
use cndl.Connection.Transmit.{Output, write, on_writable}
use cndl.Connection.Queue.{pending, callbacks, IsValid}
use cndl.Connection.Fifo.{total, owed, Adds, write-Adds, on_writable-Adds}

-- The calls on the output, in any order: the application writes, and the socket becomes writable.
pub data Call : Type 0 where
  writes : Bytes → AfterSent → Call
  writable : Call

abbrev pub apply : Call → Output → Output
apply (writes buf cb) o = write buf cb o
apply writable o = on_writable o

abbrev pub run : List Call → Output → Output
run [] o = o
run (c ∷ cs) o = run cs (apply c o)

abbrev pub bytes_of : List Call → Bytes
bytes_of [] = []
bytes_of (writes buf cb ∷ cs) = buf ++ bytes_of cs
bytes_of (writable ∷ cs) = bytes_of cs

abbrev pub callbacks_of : List Call → List AfterSent
callbacks_of [] = []
callbacks_of (writes buf cb ∷ cs) = callbacks cb ++ callbacks_of cs
callbacks_of (writable ∷ cs) = callbacks_of cs

-- Over any sequence of writes and flushes, however much the socket takes each time, the bytes that
-- it has taken, followed by the pending ones, are the bytes of all writes in their order; the
-- callbacks that have run, followed by those that wait, are the callbacks of the writes in their
-- order; and `outBufferSize` is the number of pending bytes. The bytes written in all are taken to
-- be fewer than 2^64, and no call of `::send` to fail.
pub run-Adds :
    (cs : List Call) (o : Output)
    → IsValid o
    → length (total o) + length (bytes_of cs) < 2 ^ 64
    → Adds o (bytes_of cs) (callbacks_of cs) (run cs o)
run-Adds [] o v h = (v, sym (append-nil (total o)), sym (append-nil (owed o)))
run-Adds (writes buf cb ∷ cs) o v h =
    let part = length-append o.sent (pending o.transmit_jobs) in
    let more = length-append buf (bytes_of cs) in
    let (v', t, w) = write-Adds buf cb o v (omega arith) in
    let grown = ap length t ∙ length-append (total o) buf in
    let (v'', t', w') = run-Adds cs (write buf cb o) v' (omega arith) in
    (
      v'',
      t' ∙ ap (λ x. x ++ bytes_of cs) t ∙ append_assoc (total o) buf (bytes_of cs),
      w'
          ∙ ap (λ x. x ++ callbacks_of cs) w
          ∙ append_assoc (owed o) (callbacks cb) (callbacks_of cs),
    )
run-Adds (writable ∷ cs) o v h =
    let (v', t, w) = on_writable-Adds o v in
    let same = t ∙ append-nil (total o) in
    let same_size = ap length same in
    let (v'', t', w') = run-Adds cs (on_writable o) v' (omega arith) in
    (
      v'',
      t' ∙ ap (λ x. x ++ bytes_of cs) same,
      w' ∙ ap (λ x. x ++ callbacks_of cs) (w ∙ append-nil (owed o)),
    )
