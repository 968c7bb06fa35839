-- ===== src/Http/Next.antt =====
-- What follows a round of `HttpProtocol::onDataReceived`, by its result.
use cndl.Base.{
  ℕ, ◌+◌, ◌≤◌, ◌<◌, ◌≡◌, refl, ◌⊎◌, inl, inr, Bool, false, true, List, Bytes, length, take, drop,
  leb, ltb, ltb→ge, Option, none, some, Result, ok, err, Exception, error, runtime_error,
  out_of_range, invalid_argument, length_error, undefined, stuck, index_of, substr_from, Bool-cases,
  All, if◌then◌else◌,
}
use cndl.Request.Types.{Header, Request}
use cndl.Request.Parse.{parse_header}
use cndl.Websocket.Types.{Event, Websocket}
use cndl.Http.Types.{Surroundings, Ending, stops, endless, throws, Next, again, ends, Progress}
use cndl.Http.Protocol.{written, dispatch, upgraded, hand_on, process, handle, or_leave, prepare}
use cndl.Http.Upgrade.{connection_upgrade}
use cndl.Http.Head.{crlfcrlf}
use cndl.Request.Rounds.{Ends}
use cndl.Http.Ends.{serialize-Ends, prepare-Ends, IsRoute, connection_upgrade-Ends}

-- The code itself never ends a call as `endless`, and never throws `stuck`.
abbrev pub IsFinite : Ending → Type 0
IsFinite endless = ⊥
IsFinite (throws stuck) = ⊥
IsFinite _ = Unit

abbrev pub GoesOn : Next → Type 0
GoesOn again = Unit
GoesOn (ends ending) = IsFinite ending

abbrev pub IsLast : Next → Type 0
IsLast again = ⊥
IsLast (ends ending) = IsFinite ending

abbrev pub GivesNext : Result Next → Type 0
GivesNext (ok next) = GoesOn next
GivesNext (err e) = IsFinite (throws e)

pub IsFinite-throws : (A : Type 0) (e : Exception) → Ends {A = A} (err e) → IsFinite (throws e)
IsFinite-throws A out_of_range h = tt
IsFinite-throws A invalid_argument h = tt
IsFinite-throws A length_error h = tt
IsFinite-throws A undefined h = tt
IsFinite-throws A (error code what) h = tt
IsFinite-throws A (runtime_error what) h = tt
IsFinite-throws A stuck h = h

-- A header that is complete and that `parse_header` refuses by an error below 500.
pub record IsRefused (received : Bytes) : Type 0 where
  pub idx : ℕ
  pub code : ℕ
  pub what : Bytes
  pub found : index_of crlfcrlf received ≡ some idx
  pub refused : parse_header (take (idx + 2) received) ≡ err (error code what)
  pub below : leb 500 code ≡ false

abbrev pub left : Option Header → Bytes → ℕ
left none received = length received
left (some header) received = length received + 1

-- The bytes that are left, and one more if a header is known.
abbrev pub measure : Progress → ℕ
measure s = left s.header s.received

-- A round has taken a request out of the buffer.
pub record Advances (s t : Progress) : Type 0 where
  pub taken : ℕ
  pub header_reset : t.header ≡ none
  pub rest : t.received ≡ drop taken s.received
  pub less : length t.received < measure s
  pub fits : t.consumed + length t.received ≤ s.consumed + length s.received

abbrev pub progress : Option Header → Bytes → ℕ → Progress
progress header received consumed = record {
  header = header;
  received = received;
  consumed = consumed;
}

pub written-GivesNext :
    (next : Next) (m : Result Bytes) → GoesOn next → Ends m → GivesNext (written next m).1
written-GivesNext next (ok bytes) h k = h
written-GivesNext next (err e) h k = IsFinite-throws Bytes e k

pub if-GoesOn : (b : Bool) → GoesOn (if b then ends stops else again)
if-GoesOn true = tt
if-GoesOn false = tt

pub substr_from-cases :
    (n : ℕ) (v : Bytes)
    → ((n ≤ length v) × (substr_from n v ≡ ok (drop n v))) ⊎ (substr_from n v ≡ err out_of_range)
unfolding substr_from
substr_from-cases n v = elim (Bool-cases (ltb (length v) n)) [
  | inl over ↦ inr (rw over)
  | inr fits ↦ inl (ltb→ge (length v) n fits, rw fits)
]

pub Result-cases :
    {A : Type 0} (m : Result A) → ((a : A) × (m ≡ ok a)) ⊎ ((e : Exception) × (m ≡ err e))
Result-cases (ok a) = inl (a, refl)
Result-cases (err e) = inr (e, refl)

module _ {Pattern : Type 0} (env : Surroundings Pattern) where
  -- What the `catch` clauses make of a result.
  abbrev pub handled : Result Next → Next
  handled result = or_leave env (handle env result).1

module _ {Pattern : Type 0} (env : Surroundings Pattern)
    (routes : All IsRoute env.dispatcher.ws_routes) where
  pub upgraded-GivesNext :
      (opened : List Event × Result Websocket) → Ends opened.1 → GivesNext (upgraded env opened).1
  upgraded-GivesNext (events, ok ws) h = tt
  upgraded-GivesNext (events, err e) h = IsFinite-throws Websocket e h

  pub hand_on-GivesNext : (m : Result (Request × Bool)) → Ends m → GivesNext (hand_on env m).1
  unfolding dispatch
  hand_on-GivesNext (err e) h = IsFinite-throws (Request × Bool) e h
  hand_on-GivesNext (ok (request, true)) h =
      upgraded-GivesNext (connection_upgrade env request)
        (connection_upgrade-Ends env routes request)
  hand_on-GivesNext (ok (request, false)) h = written-GivesNext _ _ (if-GoesOn _) (serialize-Ends _)

  pub process-GivesNext : (header : Header) (body : Bytes) → GivesNext (process env header body).1
  unfolding process
  process-GivesNext header body = hand_on-GivesNext (prepare header body) (prepare-Ends header body)

  pub written-stops : (m : Result Bytes) → Ends m → IsLast (or_leave env (written (ends stops) m).1)
  written-stops (ok bytes) h = tt
  written-stops (err e) h = IsFinite-throws Bytes e h

  -- An exception ends the call, but for an error below 500.
  pub err-cases :
      (e : Exception)
      → IsFinite (throws e)
      → IsLast (handled env (err e))
        ⊎ ((code : ℕ) × (what : Bytes) × (e ≡ error code what) × (leb 500 code ≡ false))
  unfolding handle
  err-cases (error code what) h = elim (Bool-cases (leb 500 code)) [
    | inl fatal ↦ inl (rw fatal (written-stops _ (serialize-Ends _)))
    | inr below ↦ inr (code, what, refl, below)
  ]
  err-cases (runtime_error what) h = inl (written-stops _ (serialize-Ends _))
  err-cases out_of_range h = inl (written-stops _ (serialize-Ends _))
  err-cases invalid_argument h = inl (written-stops _ (serialize-Ends _))
  err-cases length_error h = inl (written-stops _ (serialize-Ends _))
  err-cases undefined h = inl tt
  err-cases stuck h = absurd h
