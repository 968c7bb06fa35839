-- ===== src/Base64/Decoded.antt =====
-- The bytes of two, three and four characters.
use cndl.Base.{
  passes_below, passes_below_lem, ℕ, ◌+◌, ◌-◌, ◌*◌, ◌/◌, ◌%◌, ◌^◌, ◌<◌, ◌≤◌, ◌≡◌, refl, ap, ◌∙◌, [],
  ◌∷◌, Bytes, true, false, leb, ◌==◌, arith, ==_iff,
}
use cndl.Base64.Codec.{base64_char, lookup_char, decode_loop}

-- A character of the alphabet has the number of its place.
pub lookup_char-base64_char : (i : ℕ) → i < 64 → lookup_char (base64_char i) ≡ i
unfolding passes_below
lookup_char-base64_char i h =
    (==_iff (lookup_char (base64_char i)) i).0
      (passes_below_lem (λ j. lookup_char (base64_char j) == j) 64 refl i h)

abbrev pub joined : ℕ → ℕ → ℕ
joined val i = (val * 2 ^ 6 + i) % 2 ^ 32

pub decode_skip :
    (val bits i : ℕ) (text : Bytes)
    → i < 64
    → bits < 2
    → decode_loop val bits (base64_char i ∷ text) ≡ decode_loop (joined val i) (bits + 6) text
unfolding decode_loop
decode_skip val bits i text h small =
    let short : leb 8 (bits + 6) ≡ false = ground arith in
    let named : (i == 255) ≡ false = ground arith in rw (lookup_char-base64_char i h, named, short)

pub decode_emit :
    (val bits i : ℕ) (text : Bytes)
    → i < 64
    → 2 ≤ bits
    → decode_loop val bits (base64_char i ∷ text)
      ≡ joined val i / 2 ^ (bits + 6 - 8) % 256 ∷ decode_loop (joined val i) (bits + 6 - 8) text
unfolding decode_loop
decode_emit val bits i text h large =
    let full : leb 8 (bits + 6) ≡ true = ground arith in
    let named : (i == 255) ≡ false = ground arith in rw (lookup_char-base64_char i h, named, full)

first_byte : (w i j : ℕ) → i < 64 → j < 64 → joined (joined w i) j / 2 ^ 4 % 256 ≡ i * 4 + j / 16
first_byte w i j hi hj = omega arith

second_byte :
    (w j k : ℕ) → j < 64 → k < 64 → joined (joined w j) k / 2 ^ 2 % 256 ≡ j % 16 * 16 + k / 4
second_byte w j k hj hk = omega arith

third_byte : (w k l : ℕ) → k < 64 → l < 64 → joined (joined w k) l / 2 ^ 0 % 256 ≡ k % 4 * 64 + l
third_byte w k l hk hl = omega arith

module _ (w i j : ℕ) (hi : i < 64) (hj : j < 64) where
  -- Two characters give a byte and leave four bits.
  pub decode_two :
      (text : Bytes)
      → decode_loop w 0 (base64_char i ∷ base64_char j ∷ text)
        ≡ (i * 4 + j / 16) ∷ decode_loop (joined (joined w i) j) 4 text
  decode_two text =
      decode_skip w 0 i (base64_char j ∷ text) hi (omega arith)
      ∙ decode_emit (joined w i) 6 j text hj (omega arith)
      ∙ rw (first_byte w i j hi hj)

  module _ (k : ℕ) (hk : k < 64) where
    pub decode_three :
        (text : Bytes)
        → decode_loop w 0 (base64_char i ∷ base64_char j ∷ base64_char k ∷ text)
          ≡ (i * 4 + j / 16)
            ∷ (j % 16 * 16 + k / 4)
            ∷ decode_loop (joined (joined (joined w i) j) k) 2 text
    decode_three text =
        decode_two (base64_char k ∷ text)
        ∙ ap (λ t. (i * 4 + j / 16) ∷ t)
            (decode_emit (joined (joined w i) j) 4 k text hk (omega arith)
              ∙ rw (second_byte (joined w i) j k hj hk))

    pub decode_four :
        (l : ℕ) (text : Bytes)
        → l < 64
        → decode_loop w 0 (base64_char i ∷ base64_char j ∷ base64_char k ∷ base64_char l ∷ text)
          ≡ (i * 4 + j / 16)
            ∷ (j % 16 * 16 + k / 4)
            ∷ (k % 4 * 64 + l)
            ∷ decode_loop (joined (joined (joined (joined w i) j) k) l) 0 text
    decode_four l text hl =
        decode_three (base64_char l ∷ text)
        ∙ ap (λ t. (i * 4 + j / 16) ∷ (j % 16 * 16 + k / 4) ∷ t)
            (decode_emit (joined (joined (joined w i) j) k) 2 l text hl (omega arith)
              ∙ rw (third_byte (joined (joined w i) j) k l hk hl))

pub decode_stops : (w bits : ℕ) (text : Bytes) → decode_loop w bits (b'=' ∷ text) ≡ []
unfolding decode_loop
decode_stops w bits text = refl
