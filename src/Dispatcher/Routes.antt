-- ===== src/Dispatcher/Routes.antt =====
-- The routes of a dispatcher and the answer to a request (Dispatcher.cpp, Route.h). Regular
-- expressions are the library's: the matches of a resource are a parameter. A score is the `int` of
-- sizes below 2^31.
use cndl.Base.{
  ℤ, subtract, less, ℕ, ◌==◌, List, [], ◌∷◌, ◌++◌, Bytes, codes, str_eq, Bool, false, ◌||◌,
  if◌then◌else◌, Option, none, some, length, Result, ok, err, error, undefined, ◌>>=◌,
}
use cndl.Request.Types.{Request}
use cndl.Websocket.Types.{Event, Websocket}
use cndl.Response.Types.{Response, from_error}
use cndl.Dispatcher.Extract.{Parameter, Argument, extract}

-- What a handler throws: `cndl::Error`, another `std::exception` with its text, or anything else.
pub data Thrown : Type 0 where
  error_thrown : ℕ → Bytes → Thrown
  standard : Bytes → Thrown
  other : Thrown

pub data Outcome : Type 0 where
  returns : Option Response → Outcome
  throws : Thrown → Outcome

-- A route, with its address.
pub record Route (Pattern : Type 0) : Type 0 where
  pub address : ℕ
  pub pattern : Pattern
  pub methods : List Bytes
  pub parameters : List Parameter
  pub ftor : Request → List Argument → Outcome

abbrev pub ErrorBodyGenerator : Type 0
ErrorBodyGenerator = Option (ℕ → Bytes → Bytes)

abbrev pub contains : Bytes → List Bytes → Bool
contains method [] = false
contains method (m ∷ methods) = str_eq m method || contains method methods

-- The call of a route with the submatches.
abbrev pub invoke : {Pattern : Type 0} → Route Pattern → Request → Option (List Argument) → Outcome
invoke r request none = throws (error_thrown 500 [])
invoke r request (some arguments) = r.ftor request arguments

unfoldable pub call : {Pattern : Type 0} → Route Pattern → Request → List Bytes → Outcome
call r request sub_matches =
    if contains request.header.method r.methods
    then invoke r request (extract r.parameters sub_matches)
    else throws (error_thrown 405 [])

-- The submatches behind the first, of a pattern that matches the whole text.
abbrev pub Matcher : Type 0 → Type 0
Matcher Pattern = Pattern → Bytes → Option (List Bytes)

abbrev pub subtract_lengths : ℤ → List Bytes → ℤ
subtract_lengths score [] = score
subtract_lengths score (m ∷ ms) = subtract_lengths (subtract score (length m)) ms

pub record UrlMatchInfo (Pattern : Type 0) : Type 0 where
  pub sub_matches : List Bytes
  pub route : Route Pattern
  pub score : ℤ

module _ {Pattern : Type 0} (regex_match : Matcher Pattern) where
  abbrev pub add_match :
      Route Pattern
      → Bytes
      → Option (List Bytes)
      → List (UrlMatchInfo Pattern)
      → List (UrlMatchInfo Pattern)
  add_match r resource none infos = infos
  add_match r resource (some ms) infos =
      record { sub_matches = ms; route = r; score = subtract_lengths (ℤ.pos (length resource)) ms }
      ∷ infos

  -- The routes that match, in their order.
  unfoldable pub match_infos : List (Route Pattern) → Bytes → List (UrlMatchInfo Pattern)
  match_infos [] resource = []
  match_infos (r ∷ routes) resource =
      add_match r resource (regex_match r.pattern resource) (match_infos routes resource)

-- `std::max_element`: the first of the largest.
unfoldable pub largest :
    {Pattern : Type 0} → UrlMatchInfo Pattern → List (UrlMatchInfo Pattern) → UrlMatchInfo Pattern
largest best [] = best
largest best (i ∷ infos) = if less best.score i.score then largest i infos else largest best infos

abbrev pub max_element :
    {Pattern : Type 0} → List (UrlMatchInfo Pattern) → Option (UrlMatchInfo Pattern)
max_element [] = none
max_element (i ∷ infos) = some (largest i infos)

-- The answer to what the route returns or throws.
abbrev pub answer : ErrorBodyGenerator → Outcome → Response
answer generator (returns (some r)) = r
answer generator (returns none) = from_error 404 [] generator
answer generator (throws (error_thrown code what)) = from_error code what generator
answer generator (throws (standard what)) = from_error 500 what none
answer generator (throws other) = from_error 500 (codes "uncaught error") none

abbrev pub answer_match :
    {Pattern : Type 0} → ErrorBodyGenerator → Request → Option (UrlMatchInfo Pattern) → Response
answer_match generator request none = from_error 404 [] generator
answer_match generator request (some i) = answer generator (call i.route request i.sub_matches)

-- `Dispatcher::route`
unfoldable pub route :
    {Pattern : Type 0}
    → Matcher Pattern
    → ErrorBodyGenerator
    → List (Route Pattern)
    → Request
    → Response
route regex_match generator routes request =
    answer_match generator request
      (max_element (match_infos regex_match routes request.header.resource))

-- `addRoute` and `removeRoute`; to erase the end of the vector is `undefined`.
unfoldable pub add_route :
    {Pattern : Type 0} → Route Pattern → List (Route Pattern) → List (Route Pattern)
add_route r routes = routes ++ (r ∷ [])

unfoldable pub remove_route :
    {Pattern : Type 0} → ℕ → List (Route Pattern) → Result (List (Route Pattern))
remove_route address [] = err undefined
remove_route address (r ∷ routes) =
    let rest = remove_route address routes in
    if r.address == address then ok routes else (rest >>= λ left. ok (r ∷ left))

-- A websocket route (`WSRouteBase`), with its address: `canOpen`, and `onOpen` with the calls that it
-- makes on the connection. Both may throw.
pub record WsRoute : Type 0 where
  pub address : ℕ
  pub can_open : Request → Result Bool
  pub on_open : Request → Websocket → List Event × Result Websocket

-- `Dispatcher::routeWS`
unfoldable pub route_ws : List WsRoute → Request → Result WsRoute
route_ws [] request = err (error 404 [])
route_ws (r ∷ routes) request =
    let rest = route_ws routes request in
    r.can_open request >>= λ accept. if accept then ok r else rest

-- The members of a dispatcher.
pub record Dispatcher (Pattern : Type 0) : Type 0 where
  pub routes : List (Route Pattern)
  pub ws_routes : List WsRoute
  pub error_body_generator : ErrorBodyGenerator

-- `addRoute` and `removeRoute` of websocket routes.
unfoldable pub add_ws_route : WsRoute → List WsRoute → List WsRoute
add_ws_route r routes = routes ++ (r ∷ [])

unfoldable pub remove_ws_route : ℕ → List WsRoute → Result (List WsRoute)
remove_ws_route address [] = err undefined
remove_ws_route address (r ∷ routes) =
    let rest = remove_ws_route address routes in
    if r.address == address then ok routes else (rest >>= λ left. ok (r ∷ left))
