-- ===== src/Tests/DispatcherCases.antt =====
-- The theorems on the dispatcher at concrete routes, with patterns that are literal prefixes.
use cndl.Base.{
  ◌++◌, Exception, error, ℤ, ◌≡◌, refl, ◌⊎◌, ℕ, Bool, ◌≢◌, invalid_argument, true, false, List, [],
  ◌∷◌, Bytes, codes, some, none, ok, err, Result, All, starts_with, drop, length, if◌then◌else◌,
}
use cndl.Request.Types.{Request}
use cndl.Websocket.Types.{OpCode, Event, Websocket}
use cndl.Response.Types.{from_error, with_body}
use cndl.Response.Decimal.{to_string}
use cndl.Dispatcher.Extract.{Argument, text, extract, extract_int, as_int, extract_int-to_string}
use cndl.Dispatcher.Routes.{Outcome, returns, Route, Matcher, answer, call, route, WsRoute}
use cndl.Dispatcher.Construct.{default_methods, new_route, HasGroups, Called, new_route-Called}
use cndl.Dispatcher.Routes.{route_ws}
use cndl.Dispatcher.WsRoutes.{WsHandler, ask, tell, can_open, on_open, on_open-can_open}
use cndl.Dispatcher.Choice.{Chosen}
use cndl.Dispatcher.Answer.{route-Chosen, route_ws_lem}

-- A prefix and one group for the rest.
abbrev pub match_prefix : Matcher Bytes
match_prefix pattern resource =
    if starts_with pattern resource then some (drop (length pattern) resource ∷ []) else none

abbrev hello : Request → List Argument → Outcome
hello request arguments = returns (some (with_body (codes "hello")))

abbrev get_route : Route Bytes
get_route = record {
  address = 1;
  pattern = codes "/a/";
  methods = codes "GET" ∷ [];
  parameters = text ∷ [];
  ftor = hello;
}

abbrev any_route : Route Bytes
any_route = record get_route { address = 3; pattern = codes "/" }

abbrev pub post : Request
post = record {
  header = record {
    method = codes "POST";
    resource = codes "/a/b";
    url = codes "/a/b";
    version = codes "HTTP/1.1";
    cookies = [];
    fields = [];
    url_args = [];
    body_args = [];
    content_length = 0;
  };
  message_body = [];
}

abbrev pub routes : List (Route Bytes)
routes = any_route ∷ get_route ∷ []

abbrev opened : Request → Websocket → List Event × Result Websocket
opened request ws = ([], ok ws)

abbrev pub closed_route : WsRoute
closed_route = record { address = 4; can_open = λ request. ok false; on_open = opened }

abbrev pub open_route : WsRoute
open_route = record { address = 5; can_open = λ request. ok true; on_open = opened }

route-Chosen_example :
    (All (λ r. match_prefix r.pattern (codes "/a/b") ≡ none) routes
      × (route match_prefix none routes post ≡ from_error 404 [] none))
    ⊎ ((r : Route Bytes) × (ms : List Bytes) × Chosen match_prefix (codes "/a/b") routes r ms
        × (route match_prefix none routes post ≡ answer none (call r post ms)))
route-Chosen_example = route-Chosen match_prefix none routes post

-- A literal prefix has one group behind it.
abbrev one_group : Bytes → ℕ
one_group pattern = 1

some_size :
    (b : Bool) (m : Bytes) (ms : List Bytes)
    → (if b then some (m ∷ []) else none) ≡ some ms
    → length ms ≡ 1
some_size true m ms h = cc
some_size false m ms h = cc

match_prefix-HasGroups : HasGroups one_group match_prefix
match_prefix-HasGroups pattern resource ms h =
    some_size (starts_with pattern resource) (drop (length pattern) resource) ms h

new_route-Called_example :
    ((length (text ∷ []) ≢ one_group (codes "/a/"))
      × (new_route one_group 1 (codes "/a/") (text ∷ []) hello default_methods
          ≡ err invalid_argument))
    ⊎ ((length (text ∷ []) ≡ one_group (codes "/a/"))
        × (r : Route Bytes) × (new_route one_group 1 (codes "/a/") (text ∷ []) hello default_methods
            ≡ ok r)
        × (r.pattern ≡ codes "/a/")
        × Called r post (codes "b" ∷ []) false)
new_route-Called_example =
    new_route-Called one_group match_prefix match_prefix-HasGroups 1 (codes "/a/") (text ∷ []) hello
      default_methods post (codes "b" ∷ []) refl

route_ws_lem_example :
    (All (λ r. r.can_open post ≡ ok false) (closed_route ∷ open_route ∷ [])
      × (route_ws (closed_route ∷ open_route ∷ []) post ≡ err (error 404 [])))
    ⊎ ((before : List WsRoute) × (r : WsRoute) × (behind : List WsRoute) × (closed_route
            ∷ open_route ∷ []
          ≡ before ++ (r ∷ behind))
        × All (λ q. q.can_open post ≡ ok false) before
        × (((r.can_open post ≡ ok true) × (route_ws (closed_route ∷ open_route ∷ []) post ≡ ok r))
            ⊎ ((e : Exception) × (r.can_open post ≡ err e)
                × (route_ws (closed_route ∷ open_route ∷ []) post ≡ err e))))
route_ws_lem_example = route_ws_lem (closed_route ∷ open_route ∷ []) post

extract_int-to_string_example : extract_int (to_string (ℤ.negsuc 41)) ≡ some (as_int (ℤ.negsuc 41))
extract_int-to_string_example = extract_int-to_string (ℤ.negsuc 41)

-- A handler with one text argument, which asks and is told.
abbrev chat : WsHandler Bytes
chat = record {
  pattern = codes "/chat/";
  can_open = some (text ∷ [], λ request arguments. ok true);
  on_open = some (text ∷ [], λ request ws arguments. ([], ok ws));
}

abbrev chat_request : Request
chat_request = record post {
  header = record post.header { method = codes "GET"; resource = codes "/chat/room" };
}

abbrev chat_socket : Websocket
chat_socket = record { frag_buffer = []; cur_opcode = OpCode.continuation; auto_ping = false }

on_open-can_open_example :
    (sub_matches : List Bytes) × (match_prefix (codes "/chat/") (codes "/chat/room")
      ≡ some sub_matches)
    × (ask chat_request chat.can_open sub_matches ≡ ok true)
    × (on_open match_prefix chat chat_request chat_socket
        ≡ tell chat_request chat_socket chat.on_open sub_matches)
unfolding can_open extract
on_open-can_open_example = on_open-can_open match_prefix chat chat_request chat_socket refl
