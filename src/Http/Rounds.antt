-- ===== src/Http/Rounds.antt =====
-- When the loop of `HttpProtocol::onDataReceived` ends, and what it takes from the buffer.
use cndl.Base.{
  ℕ, zero, suc, ◌+◌, ◌≤◌, ◌<◌, ◌≡◌, ap, ◌⊎◌, inl, inr, List, Bytes, length, Option, none, some,
  Result, ok, err, All, ◌-◌, ◌^◌, refl, arith,
}
use cndl.Request.Types.{Header}
use cndl.Websocket.Types.{Event}
use cndl.Http.Types.{Surroundings, Next, again, ends, Progress, Outcome}
use cndl.Http.Protocol.{
  try_block, and_then, round, or_leave, written, serve_loop, on_data_received, handle,
}
use cndl.Http.Request.{start}
use cndl.Http.Next.{
  IsFinite-throws, IsFinite, IsLast, GoesOn, left, GivesNext, IsRefused, measure, handled,
  err-cases,
}
use cndl.Request.Rounds.{Ends}
use cndl.Http.Ends.{IsRoute, serialize-Ends}
use cndl.Http.Tried.{advances, is_last, refuses, try_block-Tried}

module _ {Pattern : Type 0} (env : Surroundings Pattern) where
  -- The rounds of the loop, as long as they go on.
  pub data Reaches : Progress → Progress → Type 0 where
    here : (s : Progress) → Reaches s s
    behind :
        (s t : Progress)
        → handled env (try_block env s).result ≡ again
        → Reaches (try_block env s).progress t
        → Reaches s t

  -- A round begins with a header that is refused.
  pub record MeetsRefused (s : Progress) : Type 0 where
    pub refusing : Progress
    pub reached : Reaches s refusing
    pub no_header : refusing.header ≡ none
    pub refused : IsRefused refusing.received

module _ {Pattern : Type 0} (env : Surroundings Pattern)
    (routes : All IsRoute env.dispatcher.ws_routes) where
  and_then-consumed :
      (s : Progress) (events : List Event) (next : Next) (rest : Progress → Outcome) (n : ℕ)
      → s.consumed ≤ n
      → (rest s).consumed ≤ n
      → (and_then env s events next rest).consumed ≤ n
  unfolding and_then
  and_then-consumed s events again rest n h k = k
  and_then-consumed s events (ends ending) rest n h k = h

  -- The last round decides.
  last-consumed :
      (s : Progress) (events : List Event) (next : Next) (rest : Progress → Outcome) (n : ℕ)
      → IsLast next
      → s.consumed ≤ n
      → (and_then env s events next rest).consumed ≤ n
  unfolding and_then
  last-consumed s events again rest n h fits = absurd h
  last-consumed s events (ends ending) rest n h fits = fits

  last-IsFinite :
      (s : Progress) (events : List Event) (next : Next) (rest : Progress → Outcome)
      → IsLast next
      → IsFinite (and_then env s events next rest).ending
  unfolding and_then
  last-IsFinite s events again rest h = absurd h
  last-IsFinite s events (ends ending) rest h = h

  serve_loop-consumed :
      (rounds : ℕ) (s : Progress)
      → (serve_loop env rounds s).consumed ≤ s.consumed + length s.received
  unfolding serve_loop round
  serve_loop-consumed zero s = omega arith
  serve_loop-consumed (suc rounds) s =
      let a = try_block env s in
      let later = serve_loop-consumed rounds a.progress in
      elim (try_block-Tried env routes s.header s.received s.consumed) [
        | advances adv next ↦
            and_then-consumed a.progress _ _ _ _ (omega (arith, adv.fits)) (omega (arith, adv.fits))
        | is_last last fits ↦ last-consumed a.progress _ _ _ _ last fits
        | refuses same missing r ↦
            let c = ap (λ p. p.consumed) same in
            let l = ap (λ p. length p.received) same in
            and_then-consumed a.progress _ (handled env a.result) (serve_loop env rounds)
              (s.consumed + length s.received) (omega arith) (omega arith)
      ]

  on_data_received-consumed :
      (header : Option Header) (received : Bytes)
      → (on_data_received env header received).consumed ≤ length received
  unfolding on_data_received
  on_data_received-consumed header received =
      let fits = serve_loop-consumed (suc (suc (length received))) (start header received) in
      omega (arith, fits)

  IsLast-GoesOn : (next : Next) → IsLast next → GoesOn next
  IsLast-GoesOn again h = absurd h
  IsLast-GoesOn (ends ending) h = h

  again-GoesOn : (m : Result Bytes) → Ends m → GoesOn (or_leave env (written again m).1)
  again-GoesOn (ok bytes) h = tt
  again-GoesOn (err e) h = IsFinite-throws Bytes e h

  handled-GoesOn : (result : Result Next) → GivesNext result → GoesOn (handled env result)
  handled-GoesOn (ok next) h = unfold handle in h
  handled-GoesOn (err e) h = elim (err-cases env routes e h) [
    | inl last ↦ IsLast-GoesOn _ last
    | inr (code, what, same, below) ↦
        rw same (unfold handle in rw below (again-GoesOn _ (serialize-Ends _)))
  ]

  and_then-IsFinite :
      {P : Type 0} (s : Progress) (events : List Event) (next : Next) (rest : Progress → Outcome)
      → GoesOn next
      → (next ≡ again → IsFinite (rest s).ending ⊎ P)
      → IsFinite (and_then env s events next rest).ending ⊎ P
  unfolding and_then
  and_then-IsFinite s events again rest h later = later refl
  and_then-IsFinite s events (ends ending) rest h later = inl h

  MeetsRefused-behind :
      (s : Progress)
      → handled env (try_block env s).result ≡ again
      → MeetsRefused env (try_block env s).progress
      → MeetsRefused env s
  MeetsRefused-behind s goes m = record {
    refusing = m.refusing;
    reached = behind s m.refusing goes m.reached;
    no_header = m.no_header;
    refused = m.refused;
  }

  ⊎-map : {A B C : Type 0} → (B → C) → A ⊎ B → A ⊎ C
  ⊎-map f (inl a) = inl a
  ⊎-map f (inr b) = inr (f b)

  serve_loop-IsFinite :
      (rounds : ℕ) (s : Progress)
      → measure s < rounds
      → IsFinite (serve_loop env rounds s).ending ⊎ MeetsRefused env s
  unfolding serve_loop round
  serve_loop-IsFinite zero s h = absurd (omega arith)
  serve_loop-IsFinite (suc rounds) s h =
      let a = try_block env s in
      elim (try_block-Tried env routes s.header s.received s.consumed) [
        | advances adv next ↦
            let reset = ap (λ h. left h a.progress.received) adv.header_reset in
            let later = serve_loop-IsFinite rounds a.progress (omega (arith, adv.less)) in
            and_then-IsFinite a.progress _ (handled env a.result) (serve_loop env rounds)
              (handled-GoesOn a.result next) (λ goes. ⊎-map (MeetsRefused-behind s goes) later)
        | is_last last fits ↦ inl (last-IsFinite a.progress _ _ (serve_loop env rounds) last)
        | refuses same missing r ↦
            inr (record { refusing = s; reached = here s; no_header = missing; refused = r })
      ]

  call-IsFinite :
      (header : Option Header) (received : Bytes)
      → IsFinite (on_data_received env header received).ending
        ⊎ MeetsRefused env (start header received)
  unfolding on_data_received
  call-IsFinite none received =
      serve_loop-IsFinite (suc (suc (length received))) (start none received) (omega arith)
  call-IsFinite (some header) received =
      serve_loop-IsFinite (suc (suc (length received))) (start (some header) received) (omega arith)

-- The fields of a header that is known are texts of fewer than 2^32 - 1 bytes.
abbrev pub IsShort : Option Header → Type 0
IsShort none = Unit
IsShort (some header) = All (λ f. length f.1 < 2 ^ 32 - 1) header.fields

module _ {Pattern : Type 0} (env : Surroundings Pattern) where
  -- Whatever is received, in fewer than 2^32 - 1 bytes, and the values of a header that is known before
  -- in fewer too, and whatever the handlers do: no more bytes are
  -- reported as consumed than were received, and no loop of the call, those that read the header, the
  -- arguments and the parts of the body included, goes on for ever, unless the rounds of the call come
  -- to one that begins with a complete header that `parse_header` refuses by an error with a code below
  -- 500. The handlers are taken not to know the exception `stuck`, which the model alone has.
  pub on_data_received-IsFinite :
      (header : Option Header) (received : Bytes)
      → IsShort header
      → length received < 2 ^ 32 - 1
      → All IsRoute env.dispatcher.ws_routes
      → ((on_data_received env header received).consumed ≤ length received)
        × (IsFinite (on_data_received env header received).ending
            ⊎ MeetsRefused env (start header received))
  on_data_received-IsFinite header received short fits routes = (
    on_data_received-consumed env routes header received,
    call-IsFinite env routes header received,
  )
