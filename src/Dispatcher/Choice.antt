-- ===== src/Dispatcher/Choice.antt =====
-- Which route answers a request.
use cndl.Base.{
  Option, ℤ, minus, subtract-minus, less, less-minus, ℕ, suc, ◌+◌, ◌<◌, ◌≤◌, ◌≡◌, refl, sym, ap,
  ◌∙◌, ◌⊎◌, inl, inr, List, [], ◌∷◌, ◌++◌, append_assoc, append-nil, Bytes, ltb, none, some, length,
  All, All-append, arith, Bool-cases, Option-cases, ltb→lt, ltb→ge,
}
use cndl.Dispatcher.Routes.{
  Route, Matcher, UrlMatchInfo, subtract_lengths, match_infos, largest, max_element,
}

-- The characters that submatches capture.
abbrev pub captured : List Bytes → ℕ
captured [] = 0
captured (m ∷ ms) = length m + captured ms

score_lem :
    (s a : ℕ) (ms : List Bytes) → subtract_lengths (minus s a) ms ≡ minus s (a + captured ms)
score_lem s a [] = ap (minus s) (omega arith)
score_lem s a (m ∷ ms) =
    ap (λ z. subtract_lengths z ms) (subtract-minus s a (length m))
    ∙ score_lem s (a + length m) ms
    ∙ ap (minus s) (omega arith)

full_score : (s : ℕ) (ms : List Bytes) → subtract_lengths (ℤ.pos s) ms ≡ minus s (captured ms)
full_score s ms =
    let start : ℤ.pos s ≡ minus s 0 = ground arith in
    ap (λ z. subtract_lengths z ms) start ∙ score_lem s 0 ms ∙ ap (minus s) (omega arith)

-- There is no match, or one that captures this much at least.
abbrev pub Captures : ℕ → Option (List Bytes) → Type 0
Captures n none = Unit
Captures n (some ms) = n ≤ captured ms

Captures-weaken : (m n : ℕ) (o : Option (List Bytes)) → m ≤ n → Captures n o → Captures m o
Captures-weaken m n none h k = tt
Captures-weaken m n (some ms) h k = omega (arith, h, k)

module _ {Pattern : Type 0} (regex_match : Matcher Pattern) (resource : Bytes) where
  -- The route captures this much at least, if it matches.
  abbrev pub AtLeast : ℕ → Route Pattern → Type 0
  AtLeast n r = Captures n (regex_match r.pattern resource)

  -- The route stands among the routes and matches, those before it capture more where they match,
  -- and those behind it do not capture less.
  pub record Chosen (routes : List (Route Pattern)) (r : Route Pattern) (ms : List Bytes)
      : Type 0 where
    pub before : List (Route Pattern)
    pub behind : List (Route Pattern)
    pub splits : routes ≡ before ++ (r ∷ behind)
    pub matches : regex_match r.pattern resource ≡ some ms
    pub more : All (AtLeast (suc (captured ms))) before
    pub no_less : All (AtLeast (captured ms)) behind

  abbrev info : Route Pattern → List Bytes → UrlMatchInfo Pattern
  info r ms = record {
    sub_matches = ms;
    route = r;
    score = subtract_lengths (ℤ.pos (length resource)) ms;
  }

  AtLeast-weaken :
      (m n : ℕ) (rs : List (Route Pattern)) → m ≤ n → All (AtLeast n) rs → All (AtLeast m) rs
  AtLeast-weaken m n [] h k = tt
  AtLeast-weaken m n (r ∷ rs) h k =
      (Captures-weaken m n (regex_match r.pattern resource) h k.0, AtLeast-weaken m n rs h k.1)

  matched_here :
      (r : Route Pattern) (ms : List Bytes) (n : ℕ)
      → regex_match r.pattern resource ≡ some ms
      → n ≤ captured ms
      → AtLeast n r
  matched_here r ms n e h = rw e h

  -- One more route, that does not capture less.
  extended :
      (seen : List (Route Pattern)) (next r : Route Pattern) (ms : List Bytes)
      → Chosen seen r ms
      → AtLeast (captured ms) next
      → Chosen (seen ++ (next ∷ [])) r ms
  extended seen next r ms c h = record {
    before = c.before;
    behind = c.behind ++ (next ∷ []);
    splits = ap (λ t. t ++ (next ∷ [])) c.splits ∙ append_assoc c.before (r ∷ c.behind) (next ∷ []);
    matches = c.matches;
    more = c.more;
    no_less = All-append (AtLeast (captured ms)) c.behind (next ∷ []) c.no_less (h, tt);
  }

  -- One more route, that captures less.
  replaced :
      (seen : List (Route Pattern)) (next r : Route Pattern) (ms ms' : List Bytes)
      → Chosen seen r ms
      → regex_match next.pattern resource ≡ some ms'
      → captured ms' < captured ms
      → Chosen (seen ++ (next ∷ [])) next ms'
  replaced seen next r ms ms' c e h = record {
    before = seen;
    behind = [];
    splits = refl;
    matches = e;
    more = rw c.splits (
        All-append (AtLeast (suc (captured ms'))) c.before (r ∷ c.behind)
          (AtLeast-weaken (suc (captured ms')) (suc (captured ms)) c.before (omega arith) c.more)
          (
            matched_here r ms (suc (captured ms')) c.matches (omega arith),
            AtLeast-weaken (suc (captured ms')) (captured ms) c.behind (omega arith) c.no_less,
          ));
    no_less = tt;
  }

  abbrev ChosenInfo : List (Route Pattern) → UrlMatchInfo Pattern → Type 0
  ChosenInfo routes i =
      (i.score ≡ minus (length resource) (captured i.sub_matches))
      × Chosen routes i.route i.sub_matches

  abbrev infos : List (Route Pattern) → List (UrlMatchInfo Pattern)
  infos rest = match_infos regex_match rest resource

  largest_lem :
      (rest seen : List (Route Pattern)) (i : UrlMatchInfo Pattern)
      → ChosenInfo seen i
      → ChosenInfo (seen ++ rest) (largest i (infos rest))
  unfolding match_infos largest
  largest_lem [] seen i c = rw (append-nil seen) c
  largest_lem (r ∷ rest) seen i (score, c) =
      let shift = append_assoc seen (r ∷ []) rest in
      elim (Option-cases (regex_match r.pattern resource)) [
        | inl unmatched ↦
            let kept = extended seen r i.route i.sub_matches c (rw unmatched tt) in
            rw (unmatched, sym shift) (largest_lem rest (seen ++ (r ∷ [])) i (score, kept))
        | inr (ms, matched) ↦
            let worth = full_score (length resource) ms in
            let compared : less i.score (info r ms).score
                ≡ ltb (captured ms) (captured i.sub_matches) =
              rw (score, worth)
                (less-minus (length resource) (captured i.sub_matches) (captured ms)) in
            elim (Bool-cases (ltb (captured ms) (captured i.sub_matches))) [
              | inl fewer ↦
                  let new = replaced seen r i.route i.sub_matches ms c matched (ltb→lt _ _ fewer) in
                  rw (matched, compared, fewer, sym shift)
                    (largest_lem rest (seen ++ (r ∷ [])) (info r ms) (worth, new))
              | inr other ↦
                  let kept =
                    extended seen r i.route i.sub_matches c
                      (matched_here r ms (captured i.sub_matches) matched (ltb→ge _ _ other)) in
                  rw (matched, compared, other, sym shift)
                    (largest_lem rest (seen ++ (r ∷ [])) i (score, kept))
            ]
      ]

  later :
      (r : Route Pattern) (routes : List (Route Pattern)) (best : Route Pattern) (ms : List Bytes)
      → regex_match r.pattern resource ≡ none
      → Chosen routes best ms
      → Chosen (r ∷ routes) best ms
  later r routes best ms unmatched c = record {
    before = r ∷ c.before;
    behind = c.behind;
    splits = ap (λ t. r ∷ t) c.splits;
    matches = c.matches;
    more = (rw unmatched tt, c.more);
    no_less = c.no_less;
  }

  pub max_element_lem :
      (routes : List (Route Pattern))
      → (All (λ r. regex_match r.pattern resource ≡ none) routes
          × (max_element (infos routes) ≡ none))
        ⊎ ((i : UrlMatchInfo Pattern) × (max_element (infos routes) ≡ some i) × ChosenInfo routes i)
  unfolding match_infos
  max_element_lem [] = inl (tt, refl)
  max_element_lem (r ∷ routes) = elim (Option-cases (regex_match r.pattern resource)) [
    | inl unmatched ↦ elim (max_element_lem routes) [
      | inl (all, nothing) ↦ rw unmatched (inl ((refl, all), nothing))
      | inr (i, found, (score, c)) ↦
          inr (i, rw unmatched found, (score, later r routes i.route i.sub_matches unmatched c))
    ]
    | inr (ms, matched) ↦
        let here : Chosen (r ∷ []) r ms = record {
          before = [];
          behind = [];
          splits = refl;
          matches = matched;
          more = tt;
          no_less = tt;
        } in
        inr (
          largest (info r ms) (infos routes),
          rw matched,
          largest_lem routes (r ∷ []) (info r ms) (full_score (length resource) ms, here),
        )
  ]
