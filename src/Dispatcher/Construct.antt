-- ===== src/Dispatcher/Construct.antt =====
-- The constructor of `Route` (Route.h), and what the check that it makes is good for.
use cndl.Base.{
  ℕ, ◌==◌, ==_iff, ◌≡◌, ◌≢◌, refl, sym, ◌∙◌, ◌⊎◌, inl, inr, Bool, true, false, Bool-cases, List, [],
  ◌∷◌, Bytes, codes, length, if◌then◌else◌, Option-cases, none, some, Result, ok, err,
  invalid_argument, arith,
}
use cndl.Request.Types.{Request}
use cndl.Dispatcher.Extract.{Parameter, Argument, extract_one, extract}
use cndl.Dispatcher.Routes.{Outcome, throws, error_thrown, Route, contains, call, Matcher}

-- The options that a route has when none are given.
abbrev pub default_methods : List Bytes
default_methods = codes "GET" ∷ []

-- `Route::Route`: the pattern has to have a group for every parameter of the handler.
unfoldable pub new_route :
    {Pattern : Type 0}
    → (Pattern → ℕ)
    → ℕ
    → Pattern
    → List Parameter
    → (Request → List Argument → Outcome)
    → List Bytes
    → Result (Route Pattern)
new_route mark_count address pattern parameters ftor methods =
    if length parameters == mark_count pattern
    then ok (record {
      address = address;
      pattern = pattern;
      methods = methods;
      parameters = parameters;
      ftor = ftor;
    })
    else err invalid_argument

-- A match has a submatch for every group of the pattern.
abbrev pub HasGroups : {Pattern : Type 0} → (Pattern → ℕ) → Matcher Pattern → Type 0
HasGroups {Pattern} mark_count regex_match =
    (pattern : Pattern) (resource : Bytes) (ms : List Bytes)
    → regex_match pattern resource ≡ some ms
    → length ms ≡ mark_count pattern

-- The arguments are those of the parameters, each of its own submatch, and no submatch is left.
abbrev pub Taken : List Parameter → List Bytes → List Argument → Type 0
Taken [] [] [] = Unit
Taken (p ∷ ps) (m ∷ ms) (a ∷ args) = (extract_one p m ≡ some a) × Taken ps ms args
Taken _ _ _ = ⊥

-- A parameter cannot be taken from its submatch.
abbrev pub Refused : List Parameter → List Bytes → Type 0
Refused (p ∷ ps) (m ∷ ms) = (extract_one p m ≡ none) ⊎ Refused ps ms
Refused _ _ = ⊥

extract-cases :
    (ps : List Parameter) (ms : List Bytes)
    → length ps ≡ length ms
    → ((args : List Argument) × Taken ps ms args × (extract ps ms ≡ some args))
      ⊎ (Refused ps ms × (extract ps ms ≡ none))
unfolding extract
extract-cases [] [] h = inl ([], tt, refl)
extract-cases [] (m ∷ ms) h = absurd (omega arith)
extract-cases (p ∷ ps) [] h = absurd (omega arith)
extract-cases (p ∷ ps) (m ∷ ms) h = elim (Option-cases (extract_one p m)) [
  | inl refused ↦ inr (inl refused, rw refused refl)
  | inr (a, taken) ↦ elim (extract-cases ps ms (omega arith)) [
    | inl (args, each, all) ↦ inl (a ∷ args, (taken, each), rw (taken, all) refl)
    | inr (refused, none_left) ↦ inr (inr refused, rw (taken, none_left) refl)
  ]
]

-- What a route answers to a request whose resource it matches.
abbrev pub Called : {Pattern : Type 0} → Route Pattern → Request → List Bytes → Bool → Type 0
Called r request ms false = call r request ms ≡ throws (error_thrown 405 [])
Called r request ms true =
    ((args : List Argument) × Taken r.parameters ms args
      × (call r request ms ≡ r.ftor request args))
    ⊎ (Refused r.parameters ms × (call r request ms ≡ throws (error_thrown 500 [])))

call-Called :
    {Pattern : Type 0} (r : Route Pattern) (request : Request) (ms : List Bytes)
    → length r.parameters ≡ length ms
    → Called r request ms (contains request.header.method r.methods)
unfolding call
call-Called r request ms h = elim (Bool-cases (contains request.header.method r.methods)) [
  | inl allowed ↦ rw allowed (elim (extract-cases r.parameters ms h) [
    | inl (args, each, all) ↦ inl (args, each, rw (allowed, all) refl)
    | inr (refused, left) ↦ inr (refused, rw (allowed, left) refl)
  ])
  | inr other ↦
      let left : call r request ms ≡ throws (error_thrown 405 []) = rw other refl in rw other left
]

module _ {Pattern : Type 0} (mark_count : Pattern → ℕ) (regex_match : Matcher Pattern)
    (groups : HasGroups mark_count regex_match) where
  -- For regular expressions whose matches have a submatch for every group, and a request whose
  -- resource the pattern matches: if the pattern has not as many groups as the handler has
  -- parameters, the constructor of the route throws. Otherwise it makes a route, which throws 405 for
  -- a method that it does not have; for one that it has, it calls the handler with one argument from
  -- each submatch, or throws 500 because a submatch is not what its parameter asks for.
  pub new_route-Called :
      (address : ℕ) (pattern : Pattern) (parameters : List Parameter)
      (ftor : Request → List Argument → Outcome) (methods : List Bytes) (request : Request)
      (ms : List Bytes)
      → regex_match pattern request.header.resource ≡ some ms
      → ((length parameters ≢ mark_count pattern)
          × (new_route mark_count address pattern parameters ftor methods ≡ err invalid_argument))
        ⊎ ((length parameters ≡ mark_count pattern)
            × (r : Route Pattern) × (new_route mark_count address pattern parameters ftor methods
                ≡ ok r)
            × (r.pattern ≡ pattern)
            × Called r request ms (contains request.header.method methods))
  unfolding new_route
  new_route-Called address pattern parameters ftor methods request ms matched =
      let made : Route Pattern = record {
        address = address;
        pattern = pattern;
        methods = methods;
        parameters = parameters;
        ftor = ftor;
      } in
      elim (Bool-cases (length parameters == mark_count pattern)) [
        | inl same ↦
            let equal = (==_iff (length parameters) (mark_count pattern)).0 same in
            let each = equal ∙ sym (groups pattern request.header.resource ms matched) in
            inr (equal, made, rw same refl, refl, call-Called made request ms each)
        | inr other ↦ inl (λ equal. ground arith, rw other refl)
      ]
