-- ===== src/Request/Escape.antt =====
-- Percent-encoding, and what `url_unescape` makes of it.
use cndl.Base.{
  ℕ, ◌+◌, ◌-◌, ◌/◌, ◌%◌, ◌^◌, ◌<◌, ◌≡◌, refl, ap, ◌∙◌, inl, inr, Bool, true, false, [], ◌∷◌, Bytes,
  length, AreBytes, ltb, ◌==◌, if◌then◌else◌, some, ok, ◌>>=◌, arith, Bool-cases, ==_iff,
}
use cndl.Request.Url.{hex_digit, url_unescape}
use cndl.Request.Unescape.{url_unescape-eq-reference}
use cndl.Request.Reference.{escaped_value, unescape, unescape-plain, mark_alone}

-- The character of a hexadecimal digit.
abbrev pub digit_char : ℕ → ℕ
digit_char d = if ltb d 10 then b'0' + d else b'A' + (d - 10)

-- Each byte that is not kept becomes a percent sign and two digits.
abbrev pub percent_encode : (ℕ → Bool) → Bytes → Bytes
percent_encode keep [] = []
percent_encode keep (c ∷ s) =
    if keep c
    then c ∷ percent_encode keep s
    else b'%' ∷ digit_char (c / 16) ∷ digit_char (c % 16) ∷ percent_encode keep s

hex_digit-digit_char : (d : ℕ) → d < 16 → hex_digit (digit_char d) ≡ some d
unfolding hex_digit
hex_digit-digit_char d h = ground arith

escaped_value-digits :
    (c : ℕ) → c < 256 → escaped_value (digit_char (c / 16)) (digit_char (c % 16)) ≡ ok c
escaped_value-digits c h =
    ground (arith, hex_digit-digit_char (c / 16), hex_digit-digit_char (c % 16))

unescape-marked :
    (c : ℕ) (rest : Bytes)
    → c < 256
    → unescape (b'%' ∷ digit_char (c / 16) ∷ digit_char (c % 16) ∷ rest)
      ≡ (unescape rest >>= λ t. ok (c ∷ t))
unfolding unescape
unescape-marked c rest h =
    ap (λ r. r >>= λ v. (unescape rest >>= λ t. ok (v ∷ t))) (escaped_value-digits c h)

kept-ne-mark : (keep : ℕ → Bool) (c : ℕ) → keep b'%' ≡ false → keep c ≡ true → (c == b'%') ≡ false
kept-ne-mark keep c k h = elim (Bool-cases (c == b'%')) [
  | inl e ↦ let same : c ≡ b'%' = (==_iff c b'%').0 e in cc (ap keep same)
  | inr e ↦ e
]

unescape-percent_encode :
    (keep : ℕ → Bool) (s : Bytes)
    → keep b'%' ≡ false
    → AreBytes s
    → unescape (percent_encode keep s) ≡ ok s
unescape-percent_encode keep [] k h = unfold unescape in refl
unescape-percent_encode keep (c ∷ s) k h = elim (Bool-cases (keep c)) [
  | inl plain ↦
      rw plain (
        unescape-plain c _ (kept-ne-mark keep c k plain)
        ∙ rw (unescape-percent_encode keep s k h.1))
  | inr coded ↦ rw coded (unescape-marked c _ h.0 ∙ rw (unescape-percent_encode keep s k h.1))
]

mark_alone-percent_encode :
    (keep : ℕ → Bool) (s : Bytes) → keep b'%' ≡ false → mark_alone (percent_encode keep s) ≡ false
mark_alone-percent_encode keep [] k = refl
mark_alone-percent_encode keep (c ∷ s) k = elim (Bool-cases (keep c)) [
  | inr coded ↦ rw coded
  | inl plain ↦ rw plain (single c (percent_encode keep s) (kept-ne-mark keep c k plain))
]
  where
    single : (d : ℕ) (t : Bytes) → (d == b'%') ≡ false → mark_alone (d ∷ t) ≡ false
    single d [] h = h
    single d (x ∷ t) h = refl

-- Whatever bytes a client leaves as they are, the percent sign aside, and writes the others with
-- two digits, `url_unescape` gives the bytes back.
pub url_unescape-percent_encode :
    (keep : ℕ → Bool) (s : Bytes)
    → keep b'%' ≡ false
    → AreBytes s
    → length (percent_encode keep s) < 2 ^ 64
    → url_unescape (percent_encode keep s) ≡ ok s
url_unescape-percent_encode keep s k h short =
    url_unescape-eq-reference (percent_encode keep s) short
    ∙ rw (mark_alone-percent_encode keep s k) (unescape-percent_encode keep s k h)
