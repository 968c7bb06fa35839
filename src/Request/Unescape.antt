-- ===== src/Request/Unescape.antt =====
-- `url_unescape` against a definition that reads one character at a time.
use cndl.Base.{
  ℕ, zero, suc, ◌+◌, ◌-◌, ◌^◌, ◌≤◌, ◌<◌, ◌≡◌, refl, sym, ap, ◌∙◌, inl, inr, true, false, [], ◌∷◌,
  ◌++◌, Bytes, length, take, drop, All, ltb, ◌==◌, if◌then◌else◌, none, some, Result, ok, err,
  ◌>>=◌, undefined, at, substr, find_where, is_char, arith, Bool-cases, Option-cases, index_where,
  index_where-none, index_where-Cut, ge→ltb, lt→ltb, ==_iff, append-nil, append_assoc, drop-add,
  length-drop,
}
use cndl.Request.Url.{
  bad_escape, hex_digit, second_digit, negated, read_escape, size_less_two, unescape_loop,
  url_unescape,
}
use cndl.Request.Reference.{
  escaped_value, escaped_last, unescape, mark_alone, reference, unescape-plain,
}

-- Putting a text in front, twice.
prefix-bind :
    (x y : Bytes) (r : Result Bytes)
    → ((r >>= λ t. ok (y ++ t)) >>= λ t. ok (x ++ t)) ≡ (r >>= λ t. ok ((x ++ y) ++ t))
prefix-bind x y (ok t) = ap ok (sym (append_assoc x y t))
prefix-bind x y (err e) = refl

bind-ok : (r : Result Bytes) → (r >>= λ t. ok t) ≡ r
bind-ok (ok t) = refl
bind-ok (err e) = refl

unescape-append :
    (pre rest : Bytes)
    → All (λ x. is_char b'%' x ≡ false) pre
    → unescape (pre ++ rest) ≡ (unescape rest >>= λ t. ok (pre ++ t))
unescape-append [] rest h = sym (bind-ok (unescape rest))
unescape-append (c ∷ pre) rest h =
    unescape-plain c (pre ++ rest) h.0
    ∙ rw (unescape-append pre rest h.1) (prefix-bind (c ∷ []) pre (unescape rest))

pub unescape-eq_self : (s : Bytes) → All (λ x. is_char b'%' x ≡ false) s → unescape s ≡ ok s
unescape-eq_self s h =
    ap unescape (sym (append-nil s))
    ∙ unescape-append s [] h
    ∙ unfold unescape in ap ok (append-nil s)

at-drop : (n i k : ℕ) (v : Bytes) → n + i ≡ k → at v k ≡ at (drop n v) i
at-drop zero i k v e = ap (at v) {x = k} {y = i} (omega arith)
at-drop (suc n) i k [] e = refl
at-drop (suc n) i zero (x ∷ v) e = absurd (omega arith)
at-drop (suc n) i (suc k) (x ∷ v) e = at-drop n i k v (omega arith)

-- `read_escape` on the characters behind the percent sign.
read_behind : Bytes → Result ℕ
read_behind [] = err undefined
read_behind (a ∷ []) = elim (hex_digit a) [
  | some high ↦ err undefined
  | none ↦ if a == b'-' then err undefined else err bad_escape
]
read_behind (a ∷ b ∷ rest) = escaped_value a b

-- What is read behind the first character `a`, with the second as `m`.
abbrev read_second : ℕ → Result ℕ → Result ℕ
read_second a m = elim (hex_digit a) [
  | some high ↦ (do second ← m; ok (second_digit high (hex_digit second)))
  | none ↦ if a == b'-' then (do second ← m; negated (hex_digit second)) else err bad_escape
]

digit-cases : (a : ℕ) (m n : Result ℕ) → m ≡ n → read_second a m ≡ read_second a n
digit-cases a m n e = ap (read_second a) e

read_escape-behind :
    (str : Bytes) (pos : ℕ) (behind : Bytes)
    → drop (pos + 1) str ≡ behind
    → read_escape str pos ≡ read_behind behind
unfolding read_escape read_behind
read_escape-behind str pos [] e = rw (at-drop (pos + 1) 0 (pos + 1) str (omega arith), e)
read_escape-behind str pos (a ∷ []) e =
    let f : at str (pos + 1) ≡ ok a =
      at-drop (pos + 1) 0 (pos + 1) str (omega arith) ∙ ap (λ v. at v 0) e in
    let s : at str (pos + 2) ≡ err undefined =
      at-drop (pos + 1) 1 (pos + 2) str (omega arith) ∙ ap (λ v. at v 1) e in
    rw f (digit-cases a (at str (pos + 2)) (err undefined) s)
read_escape-behind str pos (a ∷ b ∷ rest) e =
    let f : at str (pos + 1) ≡ ok a =
      at-drop (pos + 1) 0 (pos + 1) str (omega arith) ∙ ap (λ v. at v 0) e in
    let s : at str (pos + 2) ≡ ok b =
      at-drop (pos + 1) 1 (pos + 2) str (omega arith) ∙ ap (λ v. at v 1) e in
    rw f (digit-cases a (at str (pos + 2)) (ok b) s)

last_cases :
    (a : ℕ) (f : ℕ → Result Bytes) (g : Bytes → Result Bytes)
    → (read_behind (a ∷ []) >>= f) ≡ (escaped_last a >>= g)
unfolding read_behind
last_cases a f g = ground arith

value_cases :
    (m : Result ℕ) (f : ℕ → Result Bytes) (r : Result Bytes) (before : Bytes)
    → ((v : ℕ) → f v ≡ (r >>= λ t. ok ((before ++ (v ∷ [])) ++ t)))
    → (m >>= f) ≡ ((m >>= λ v. (r >>= λ t. ok (v ∷ t))) >>= λ t. ok (before ++ t))
value_cases (ok v) f r before h = h v ∙ sym (prefix-bind before (v ∷ []) r)
value_cases (err e) f r before h = refl

-- The loop behind a percent sign at `pos`.
abbrev after_mark : ℕ → Bytes → ℕ → Bytes → Result Bytes
after_mark rounds str pos before =
    if ltb (size_less_two str) pos
    then err bad_escape
    else (do val ← read_escape str pos; unescape_loop rounds str (pos + 3) (before ++ (val ∷ [])))

module _ (str : Bytes) (short : length str < 2 ^ 64) (two : 2 ≤ length str) where
  after_mark_lem :
      (rounds pos : ℕ) (before behind : Bytes)
      → drop (pos + 1) str ≡ behind
      → pos + 1 + length behind ≡ length str
      → ((out : Bytes)
          → pos + 3 ≤ length str
          → unescape_loop rounds str (pos + 3) out
            ≡ (unescape (drop (pos + 3) str) >>= λ t. ok (out ++ t)))
      → after_mark rounds str pos before ≡ (unescape (b'%' ∷ behind) >>= λ t. ok (before ++ t))
  unfolding unescape read_behind
  after_mark_lem rounds pos before [] e size ih = rw (lt→ltb (size_less_two str) pos (omega arith))
  after_mark_lem rounds pos before (a ∷ []) e size ih =
      rw (ge→ltb (size_less_two str) pos (omega arith), read_escape-behind str pos (a ∷ []) e)
        (last_cases a _ _)
  after_mark_lem rounds pos before (a ∷ b ∷ rest) e size ih =
      let third : drop (pos + 3) str ≡ rest =
        ap (λ n. drop n str) {x = pos + 3} {y = pos + 1 + 2} (omega arith)
        ∙ drop-add 2 (pos + 1) str
        ∙ ap (drop 2) e in
      rw (ge→ltb (size_less_two str) pos (omega arith), read_escape-behind str pos (a ∷ b ∷ rest) e)
        (value_cases (escaped_value a b) _ (unescape rest) before
          (λ v. ih (before ++ (v ∷ [])) (omega arith) ∙ rw third))

has_two :
    (str : Bytes) (pos : ℕ) (behind : Bytes)
    → mark_alone str ≡ false
    → drop pos str ≡ b'%' ∷ behind
    → 2 ≤ length str
has_two [] zero behind h e = cc
has_two [] (suc pos) behind h e = cc
has_two (x ∷ []) zero behind h e = ground arith
has_two (x ∷ []) (suc zero) behind h e = cc
has_two (x ∷ []) (suc (suc pos)) behind h e = cc
has_two (x ∷ y ∷ str) pos behind h e = omega arith

sub-start : (start i : ℕ) → start + i - start ≡ i
sub-start start i = omega arith

module _ (str : Bytes) (short : length str < 2 ^ 64) (more : mark_alone str ≡ false) where
  unescape_loop_lem :
      (rounds start : ℕ) (out : Bytes)
      → start ≤ length str
      → length str - start < rounds
      → unescape_loop rounds str start out ≡ (unescape (drop start str) >>= λ t. ok (out ++ t))
  unfolding unescape_loop find_where substr
  unescape_loop_lem zero start out h enough = absurd (omega arith)
  unescape_loop_lem (suc rounds) start out h enough =
      elim (Option-cases (index_where (is_char b'%') (drop start str))) [
        | inl nothing ↦
            let s = drop start str in
            rw (
              nothing,
              ge→ltb (length str) start h,
              unescape-eq_self s (index_where-none _ s nothing),
            )
        | inr (i, found) ↦
            let s = drop start str in
            let c = index_where-Cut _ s found in
            let pos = start + i in
            let percent : c.mark ≡ b'%' = (==_iff c.mark b'%').0 c.passes in
            let here : drop pos str ≡ b'%' ∷ c.behind =
              drop-add i start str ∙ c.from_mark ∙ ap (λ x. x ∷ c.behind) percent in
            let two = has_two str pos c.behind more here in
            let chunk : take (pos - start) s ≡ take i s =
              ap (λ n. take n s) {x = pos - start} {y = i} (sub-start start i) in
            let cut : unescape s ≡ (unescape (b'%' ∷ c.behind) >>= λ t. ok (take i s ++ t)) =
              ap unescape (c.splits ∙ ap (λ x. take i s ++ (x ∷ c.behind)) percent)
              ∙ unescape-append (take i s) (b'%' ∷ c.behind) c.before_fails in
            let size : pos + 1 + length c.behind ≡ length str =
              omega (arith, ap length here, length-drop pos str, length-drop start str, c.inside) in
            rw (found, ge→ltb (length str) start h, chunk)
              (after_mark_lem str short two rounds pos (out ++ take i s) c.behind
                  (drop-add 1 pos str ∙ ap (drop 1) here) size
                  (λ out' fits. unescape_loop_lem rounds (pos + 3) out' fits (omega arith))
                ∙ sym (prefix-bind out (take i s) (unescape (b'%' ∷ c.behind)))
                ∙ ap (λ r. r >>= λ t. ok (out ++ t)) (sym cut))
      ]

alone_lem :
    (str : Bytes) → mark_alone str ≡ true → unescape_loop (length str + 1) str 0 [] ≡ err undefined
unfolding unescape_loop find_where substr read_escape
alone_lem [] h = cc
alone_lem (c ∷ []) h = let e : c ≡ b'%' = (==_iff c b'%').0 h in rw e
alone_lem (c ∷ d ∷ str) h = cc

-- On every text that fits the address space, the loop over positions gives what reading the text
-- from the left one character at a time gives, exceptions included, and it ends by itself. The only
-- difference is the text that is one percent sign: there `str.size() - 2` wraps round, so that the
-- test lets it pass and a character outside the text is read.
pub url_unescape-eq-reference :
    (str : Bytes) → length str < 2 ^ 64 → url_unescape str ≡ reference str
unfolding url_unescape
url_unescape-eq-reference str short = elim (Bool-cases (mark_alone str)) [
  | inr more ↦ rw more (
      unescape_loop_lem str short more (length str + 1) 0 [] (omega arith) (omega arith)
      ∙ bind-ok (unescape str))
  | inl alone ↦ rw (alone, alone_lem str alone)
]
