-- ===== src/Http/Safety.antt =====
-- When a connection is given to a websocket.
use cndl.Base.{
  ◌≡◌, refl, sym, ap, ◌∙◌, inl, inr, zero, suc, ℕ, List, Bytes, ltb, length, take, drop, ◌⊎◌, Bool,
  true, false, Bool-cases, Option, none, some, Result, ok, err, Exception, if◌then◌else◌, error,
  runtime_error, out_of_range, invalid_argument, length_error, undefined, stuck,
}
use cndl.Request.Types.{Header, Request}
use cndl.Websocket.Types.{Event, Websocket}
use cndl.Http.Types.{Surroundings, Ending, stops, upgrades, Next, again, ends, Progress, Outcome}
use cndl.Http.Upgrade.{websocket_key, upgrade_with, connection_upgrade}
use cndl.Http.Protocol.{
  read_header, written, dispatch, upgraded, hand_on, process, read_message, go_on, try_block,
  handle, or_leave, and_then, round, serve_loop, on_data_received, prepare,
}
use cndl.Http.Request.{start}
use cndl.Http.Origin.{Came, Origin, Within, prepare-Origin, read_header-Within, go_on-Within}
use cndl.Http.Opened.{Opened, upgrade_with-Opened}

known-Came :
    (member : Option Header) (received : Bytes) {m : Option Header} {header : Header}
    → ((m ≡ none) ⊎ ((h : Header) × (m ≡ some h) × Came member received h))
    → m ≡ some header
    → Came member received header
known-Came member received (inl missing) same = absurd (let e = sym missing ∙ same in cc)
known-Came member received {m} {header} (inr (h, there, came)) same =
    let e : h ≡ header = let both = sym there ∙ same in cc in rw (sym e) came

module _ {Pattern : Type 0} (env : Surroundings Pattern) where
  abbrev pub IsSafe : Option Header → Bytes → Ending → Type 0
  IsSafe member received (upgrades ws) = Opened member received env.dispatcher.ws_routes ws
  IsSafe member received _ = Unit

  module _ (member : Option Header) (received : Bytes) where
    abbrev IsSafeNext : Next → Type 0
    IsSafeNext again = Unit
    IsSafeNext (ends ending) = IsSafe member received ending

    abbrev IsSafeResult : Result Next → Type 0
    IsSafeResult (ok next) = IsSafeNext next
    IsSafeResult (err e) = Unit

    upgraded-IsSafe :
        (opened : List Event × Result Websocket)
        → ((ws : Websocket) → opened.1 ≡ ok ws → Opened member received env.dispatcher.ws_routes ws)
        → IsSafeResult (upgraded env opened).1
    upgraded-IsSafe (events, ok ws) h = h ws refl
    upgraded-IsSafe (events, err e) h = tt

    connection_upgrade-IsSafe :
        (request : Request)
        → Origin member received request
        → IsSafeResult (upgraded env (connection_upgrade env request)).1
    unfolding connection_upgrade
    connection_upgrade-IsSafe request origin =
        upgraded-IsSafe (upgrade_with env request (websocket_key request)) (λ ws h.
          upgrade_with-Opened env member received request (websocket_key request) origin refl h)

    written-IsSafe :
        (next : Next) (m : Result Bytes) → IsSafeNext next → IsSafeResult (written next m).1
    written-IsSafe next (ok bytes) h = h
    written-IsSafe next (err e) h = tt

    stops-IsSafe : (b : Bool) → IsSafeNext (if b then ends stops else again)
    stops-IsSafe true = tt
    stops-IsSafe false = tt

    hand_on-IsSafe :
        (header : Header) (from : ℕ) (m : Result (Request × Bool))
        → Came member received header
        → prepare header (take header.content_length (drop from received)) ≡ m
        → IsSafeResult (hand_on env m).1
    hand_on-IsSafe header from (err e) came same = tt
    hand_on-IsSafe header from (ok (request, true)) came same =
        connection_upgrade-IsSafe request (prepare-Origin header from came same)
    hand_on-IsSafe header from (ok (request, false)) came same =
        unfold dispatch in written-IsSafe _ _ (stops-IsSafe _)

    process-IsSafe :
        (header : Header) (from : ℕ) (rest : Bytes)
        → Came member received header
        → rest ≡ drop from received
        → IsSafeResult (process env header (take header.content_length rest)).1
    unfolding process
    process-IsSafe header from rest came behind =
        hand_on-IsSafe header from (prepare header (take header.content_length rest)) came
          (ap (λ v. prepare header (take header.content_length v)) (sym behind))

    read_message-IsSafe :
        (s : Progress) (header : Option Header)
        → Within member received s
        → s.header ≡ header
        → IsSafeResult (read_message env s header).result
    read_message-IsSafe s none w same = tt
    read_message-IsSafe s (some header) w same =
        elim (Bool-cases (ltb (length s.received) header.content_length)) [
          | inl short ↦ rw short tt
          | inr complete ↦ rw complete (
              process-IsSafe header w.start s.received (known-Came member received w.known same)
                w.rest)
        ]

    go_on-IsSafe :
        (read : Progress × Option Exception)
        → Within member received read.0
        → IsSafeResult (go_on env read).result
    go_on-IsSafe (s, none) w = read_message-IsSafe s s.header w refl
    go_on-IsSafe (s, some e) w = tt

    leave-IsSafe : (result : Result Next) → IsSafeResult result → IsSafeNext (or_leave env result)
    leave-IsSafe (ok next) h = h
    leave-IsSafe (err e) h = tt

    handle-IsSafe :
        (result : Result Next) → IsSafeResult result → IsSafeResult (handle env result).1
    unfolding handle
    handle-IsSafe (ok next) h = h
    handle-IsSafe (err (error code what)) h = written-IsSafe _ _ (stops-IsSafe _)
    handle-IsSafe (err (runtime_error what)) h = written-IsSafe (ends stops) _ tt
    handle-IsSafe (err out_of_range) h = written-IsSafe (ends stops) _ tt
    handle-IsSafe (err invalid_argument) h = written-IsSafe (ends stops) _ tt
    handle-IsSafe (err length_error) h = written-IsSafe (ends stops) _ tt
    handle-IsSafe (err undefined) h = tt
    handle-IsSafe (err stuck) h = tt

    and_then-IsSafe :
        (s : Progress) (events : List Event) (next : Next) (rest : Progress → Outcome)
        → IsSafeNext next
        → IsSafe member received (rest s).ending
        → IsSafe member received (and_then env s events next rest).ending
    unfolding and_then
    and_then-IsSafe s events again rest h later = later
    and_then-IsSafe s events (ends ending) rest h later = h

    serve_loop-IsSafe :
        (rounds : ℕ) (s : Progress)
        → Within member received s
        → IsSafe member received (serve_loop env rounds s).ending
    unfolding serve_loop round try_block
    serve_loop-IsSafe zero s w = tt
    serve_loop-IsSafe (suc rounds) s w =
        let read = read_header-Within s w in
        and_then-IsSafe _ _ _ (serve_loop env rounds)
          (leave-IsSafe _ (handle-IsSafe _ (go_on-IsSafe (read_header s) read)))
          (serve_loop-IsSafe rounds _ (go_on-Within env (read_header s) read))

  start-Within :
      (member : Option Header) (received : Bytes) → Within member received (start member received)
  start-Within none received = record { start = 0; rest = refl; known = inl refl }
  start-Within (some header) received = record {
    start = 0;
    rest = refl;
    known = inr (header, refl, inl refl);
  }

  -- A connection is given to a websocket only for a request that was received: its header is the one
  -- that was known before the call or was read by `parse_header` from a part of the bytes, and its body
  -- are bytes received. It is a GET request with the upgrade `websocket`, a key and the version 13, a
  -- route of the dispatcher accepts it, and the websocket is the one that this route opens.
  pub on_data_received-IsSafe :
      (member : Option Header) (received : Bytes)
      → IsSafe member received (on_data_received env member received).ending
  unfolding on_data_received
  on_data_received-IsSafe member received =
      serve_loop-IsSafe member received (suc (suc (length received))) (start member received)
        (start-Within member received)
