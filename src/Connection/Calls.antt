-- ===== src/Connection/Calls.antt =====
-- The writes to a connection that come of the calls of its protocol.
use cndl.Base.{
  ◌+◌, ◌^◌, ◌<◌, ◌≡◌, refl, sym, ap, ◌∙◌, List, [], ◌∷◌, ◌++◌, Bytes, length, append_assoc,
}
use cndl.Websocket.Types.{Event, AfterSent}
use cndl.Connection.Transmit.{Output, write as transmit}
use cndl.Connection.Queue.{callbacks, IsValid}
use cndl.Connection.Fifo.{total, Adds}
use cndl.Connection.Schedule.{Call, writes, run, bytes_of, callbacks_of, run-Adds}
use cndl.Connection.Handler.{Application, write_all, writes_of, deliver}

abbrev pub calls : List (Bytes × AfterSent) → List Call
calls [] = []
calls ((bytes, cb) ∷ rest) = writes bytes cb ∷ calls rest

-- The writes to the connection that come of the calls of a protocol.
abbrev pub answered : Application → List Event → List Call
answered app [] = []
answered app (e ∷ events) = calls (writes_of app e) ++ answered app events

pub run-calls :
    (ws : List (Bytes × AfterSent)) (cs : List Call) (o : Output)
    → run (calls ws ++ cs) o ≡ run cs (write_all ws o)
run-calls [] cs o = refl
run-calls ((bytes, cb) ∷ ws) cs o = run-calls ws cs (transmit bytes cb o)

pub deliver-run :
    (app : Application) (events : List Event) (o : Output)
    → deliver app events o ≡ run (answered app events) o
unfolding deliver
deliver-run app [] o = refl
deliver-run app (e ∷ events) o =
    deliver-run app events (write_all (writes_of app e) o)
    ∙ sym (run-calls (writes_of app e) (answered app events) o)

pub bytes_of-append : (a b : List Call) → bytes_of (a ++ b) ≡ bytes_of a ++ bytes_of b
bytes_of-append [] b = refl
bytes_of-append (writes buf cb ∷ a) b =
    ap (λ t. buf ++ t) (bytes_of-append a b) ∙ sym (append_assoc buf (bytes_of a) (bytes_of b))
bytes_of-append (Call.writable ∷ a) b = bytes_of-append a b

pub callbacks_of-append :
    (a b : List Call) → callbacks_of (a ++ b) ≡ callbacks_of a ++ callbacks_of b
callbacks_of-append [] b = refl
callbacks_of-append (writes buf cb ∷ a) b =
    ap (λ t. callbacks cb ++ t) (callbacks_of-append a b)
    ∙ sym (append_assoc (callbacks cb) (callbacks_of a) (callbacks_of b))
callbacks_of-append (Call.writable ∷ a) b = callbacks_of-append a b

pub answered-append :
    (app : Application) (a b : List Event)
    → answered app (a ++ b) ≡ answered app a ++ answered app b
answered-append app [] b = refl
answered-append app (e ∷ a) b =
    ap (λ t. calls (writes_of app e) ++ t) (answered-append app a b)
    ∙ sym (append_assoc (calls (writes_of app e)) (answered app a) (answered app b))

-- The writes of some calls come behind, in their order.
abbrev pub Sends : Application → Output → List Event → Output → Type 0
Sends app o events o' =
    Adds o (bytes_of (answered app events)) (callbacks_of (answered app events)) o'

abbrev pub Fits64 : Application → Output → List Event → Type 0
Fits64 app o events = length (total o) + length (bytes_of (answered app events)) < 2 ^ 64

pub deliver-Sends :
    (app : Application) (events : List Event) (o : Output)
    → IsValid o
    → Fits64 app o events
    → Sends app o events (deliver app events o)
deliver-Sends app events o v h =
    rw (deliver-run app events o) (run-Adds (answered app events) o v h)
