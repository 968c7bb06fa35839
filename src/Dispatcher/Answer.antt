-- ===== src/Dispatcher/Answer.antt =====
-- What the dispatcher answers, and what adding and removing a route does.
use cndl.Base.{
  Exception, ℤ, less_irrefl, length, ℕ, ◌==◌, ◌≡◌, refl, sym, ap, ◌∙◌, ◌⊎◌, inl, inr, List, [], ◌∷◌,
  ◌++◌, Bytes, Bool, true, false, none, some, All, Result, ok, err, error, undefined, arith,
  Bool-cases,
}
use cndl.Request.Types.{Request}
use cndl.Response.Types.{from_error}
use cndl.Dispatcher.Routes.{
  subtract_lengths, Route, Matcher, ErrorBodyGenerator, contains, match_infos, largest, answer,
  call, route, add_route, remove_route, WsRoute, route_ws,
}
use cndl.Dispatcher.Choice.{Chosen, max_element_lem}

opened-cases :
    (m : Result Bool) → ((m ≡ ok true) ⊎ (m ≡ ok false)) ⊎ ((e : Exception) × (m ≡ err e))
opened-cases (ok true) = inl (inl refl)
opened-cases (ok false) = inl (inr refl)
opened-cases (err e) = inr (e, refl)

module _ {Pattern : Type 0} (regex_match : Matcher Pattern) (generator : ErrorBodyGenerator) where
  -- A request that no route matches is answered by the error 404. Every other request is answered by
  -- a call of the first among the matching routes whose submatches are the shortest, taken together.
  pub route-Chosen :
      (routes : List (Route Pattern)) (request : Request)
      → (All (λ r. regex_match r.pattern request.header.resource ≡ none) routes
          × (route regex_match generator routes request ≡ from_error 404 [] generator))
        ⊎ ((r : Route Pattern) × (ms : List Bytes) × Chosen regex_match request.header.resource
              routes r ms
            × (route regex_match generator routes request ≡ answer generator (call r request ms)))
  unfolding route
  route-Chosen routes request = elim (max_element_lem regex_match request.header.resource routes) [
    | inl (all, nothing) ↦ inl (all, rw nothing)
    | inr (i, found, (score, c)) ↦ inr (i.route, i.sub_matches, c, rw found)
  ]

  -- Of two routes with one pattern the first answers every request, so that a method of the second
  -- alone is answered by the error 405.
  pub route-same_pattern :
      (r s : Route Pattern) (request : Request) (ms : List Bytes)
      → r.pattern ≡ s.pattern
      → regex_match r.pattern request.header.resource ≡ some ms
      → contains request.header.method r.methods ≡ false
      → contains request.header.method s.methods ≡ true
      → route regex_match generator (r ∷ s ∷ []) request ≡ from_error 405 [] generator
  unfolding route match_infos largest call
  route-same_pattern r s request ms same matched missing present =
      let second : regex_match s.pattern request.header.resource ≡ some ms =
        ap (λ p. regex_match p request.header.resource) (sym same) ∙ matched in
      rw (
        matched,
        second,
        less_irrefl (subtract_lengths (ℤ.pos (length request.header.resource)) ms),
        missing,
      )

abbrev pub IsOther : {Pattern : Type 0} → ℕ → Route Pattern → Type 0
IsOther address r = (r.address == address) ≡ false

-- `remove_route` takes out the first route with the address and keeps the others in their order; if
-- no route has it, what it does is undefined.
pub remove_route_lem :
    {Pattern : Type 0} (address : ℕ) (routes : List (Route Pattern))
    → (All (IsOther address) routes × (remove_route address routes ≡ err undefined))
      ⊎ ((before : List (Route Pattern)) × (r : Route Pattern) × (behind : List (Route Pattern))
          × (routes ≡ before ++ (r ∷ behind))
          × ((r.address == address) ≡ true)
          × All (IsOther address) before
          × (remove_route address routes ≡ ok (before ++ behind)))
unfolding remove_route
remove_route_lem address [] = inl (tt, refl)
remove_route_lem address (r ∷ routes) = elim (Bool-cases (r.address == address)) [
  | inl here ↦ inr ([], r, routes, refl, here, tt, rw here)
  | inr other ↦ elim (remove_route_lem address routes) [
    | inl (all, nothing) ↦ inl ((other, all), rw (other, nothing))
    | inr (before, q, behind, splits, here, others, rest) ↦
        inr (r ∷ before, q, behind, ap (λ t. r ∷ t) splits, here, (other, others), rw (other, rest))
  ]
]

-- A route that is added answers to its address alone, so to remove it again gives the routes that
-- were there before, if none of them has its address.
pub remove_route-add_route :
    {Pattern : Type 0} (r : Route Pattern) (routes : List (Route Pattern))
    → All (IsOther r.address) routes
    → remove_route r.address (add_route r routes) ≡ ok routes
unfolding remove_route add_route
remove_route-add_route r [] h = let here : (r.address == r.address) ≡ true = ground arith in rw here
remove_route-add_route r (q ∷ routes) h = rw (h.0, remove_route-add_route r routes h.1)

-- A websocket request opens the first route that accepts it. If a route throws before, that leaves
-- `route_ws`; if every route refuses, it is the error 404.
pub route_ws_lem :
    (routes : List WsRoute) (request : Request)
    → (All (λ r. r.can_open request ≡ ok false) routes
        × (route_ws routes request ≡ err (error 404 [])))
      ⊎ ((before : List WsRoute) × (r : WsRoute) × (behind : List WsRoute) × (routes
            ≡ before ++ (r ∷ behind))
          × All (λ q. q.can_open request ≡ ok false) before
          × (((r.can_open request ≡ ok true) × (route_ws routes request ≡ ok r))
              ⊎ ((e : Exception) × (r.can_open request ≡ err e)
                  × (route_ws routes request ≡ err e))))
unfolding route_ws
route_ws_lem [] request = inl (tt, refl)
route_ws_lem (r ∷ routes) request = elim (opened-cases (r.can_open request)) [
  | inl (inl accepts) ↦ inr ([], r, routes, refl, tt, inl (accepts, rw accepts))
  | inl (inr refuses) ↦ elim (route_ws_lem routes request) [
    | inl (all, nothing) ↦ inl ((refuses, all), rw (refuses, nothing))
    | inr (before, q, behind, splits, others, rest) ↦ inr (
      r ∷ before,
      q,
      behind,
      ap (λ t. r ∷ t) splits,
      (refuses, others),
      elim rest [
        | inl (accepts, opened) ↦ inl (accepts, rw (refuses, opened))
        | inr (e, thrown, left) ↦ inr (e, thrown, rw (refuses, left))
      ],
    )
  ]
  | inr (e, thrown) ↦ inr ([], r, routes, refl, tt, inr (e, thrown, rw thrown))
]
