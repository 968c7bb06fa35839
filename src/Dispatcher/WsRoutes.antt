-- ===== src/Dispatcher/WsRoutes.antt =====
-- `WSRoute` of WSRoute.h: a pattern and a handler that may have `canOpen` and `onOpen`.
use cndl.Base.{
  ℕ, ◌≡◌, List, [], Bytes, Bool, true, false, Option, none, some, Option-cases, inl, inr, Result,
  ok, err, invalid_argument,
}
use cndl.Request.Types.{Request}
use cndl.Websocket.Types.{Event, Websocket}
use cndl.Dispatcher.Extract.{Parameter, Argument, extract}
use cndl.Dispatcher.Routes.{Matcher, WsRoute}

abbrev pub CanOpen : Type 0
CanOpen = List Parameter × (Request → List Argument → Result Bool)

abbrev pub OnOpen : Type 0
OnOpen = List Parameter × (Request → Websocket → List Argument → List Event × Result Websocket)

-- The two functions of a handler, with the types of their parameters, if it has them.
pub record WsHandler (Pattern : Type 0) : Type 0 where
  pub pattern : Pattern
  pub can_open : Option CanOpen
  pub on_open :
      Option
        (List Parameter × (Request → Websocket → List Argument → List Event × Result Websocket))

-- The handler is asked if it can be asked and if the arguments can be had; otherwise the match is
-- enough.
abbrev pub ask_with :
    Request → (Request → List Argument → Result Bool) → Option (List Argument) → Result Bool
ask_with request asked none = ok true
ask_with request asked (some arguments) = asked request arguments

abbrev pub ask : Request → Option CanOpen → List Bytes → Result Bool
ask request none sub_matches = ok true
ask request (some (parameters, asked)) sub_matches =
    ask_with request asked (extract parameters sub_matches)

abbrev pub ask_matched : Request → Option CanOpen → Option (List Bytes) → Result Bool
ask_matched request can_open none = ok false
ask_matched request can_open (some sub_matches) = ask request can_open sub_matches

abbrev pub tell_with :
    Request
    → Websocket
    → (Request → Websocket → List Argument → List Event × Result Websocket)
    → Option (List Argument)
    → List Event × Result Websocket
tell_with request ws told none = ([], ok ws)
tell_with request ws told (some arguments) = told request ws arguments

abbrev pub tell : Request → Websocket → Option OnOpen → List Bytes → List Event × Result Websocket
tell request ws none sub_matches = ([], ok ws)
tell request ws (some (parameters, told)) sub_matches =
    tell_with request ws told (extract parameters sub_matches)

abbrev pub tell_matched :
    Request → Websocket → Option OnOpen → Option (List Bytes) → List Event × Result Websocket
tell_matched request ws on_open none = ([], err invalid_argument)
tell_matched request ws on_open (some sub_matches) = tell request ws on_open sub_matches

module _ {Pattern : Type 0} (regex_match : Matcher Pattern) (h : WsHandler Pattern) where
  unfoldable pub can_open : Request → Result Bool
  can_open request = ask_matched request h.can_open (regex_match h.pattern request.header.resource)

  unfoldable pub on_open : Request → Websocket → List Event × Result Websocket
  on_open request ws =
      tell_matched request ws h.on_open (regex_match h.pattern request.header.resource)

  -- The route as the dispatcher sees it.
  abbrev pub ws_route : ℕ → WsRoute
  ws_route address = record { address = address; can_open = can_open; on_open = on_open }

  -- A route that accepts a request matches its resource, so that `onOpen` of the same route on the same
  -- request comes to the handler with the same submatches, or does nothing, and never throws the
  -- `std::invalid_argument` of a request that does not match.
  pub on_open-can_open :
      (request : Request) (ws : Websocket)
      → can_open request ≡ ok true
      → (sub_matches : List Bytes) × (regex_match h.pattern request.header.resource
          ≡ some sub_matches)
        × (ask request h.can_open sub_matches ≡ ok true)
        × (on_open request ws ≡ tell request ws h.on_open sub_matches)
  unfolding can_open on_open
  on_open-can_open request ws accepts =
      elim (Option-cases (regex_match h.pattern request.header.resource)) [
        | inl nothing ↦
            let refuses : can_open request ≡ ok false = rw (nothing, can_open) in absurd cc
        | inr (ms, found) ↦ (ms, found, rw found at accepts, rw found)
      ]

  -- A request that matches and whose submatches do not give the arguments of `canOpen` is accepted
  -- without a question to the handler.
  can_open-unasked :
      (request : Request) (ms : List Bytes) (parameters : List Parameter)
      (asked : Request → List Argument → Result Bool)
      → regex_match h.pattern request.header.resource ≡ some ms
      → h.can_open ≡ some (parameters, asked)
      → extract parameters ms ≡ none
      → can_open request ≡ ok true
  unfolding can_open
  can_open-unasked request ms parameters asked found has missing = rw (found, has, missing)
