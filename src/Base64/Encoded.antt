-- ===== src/Base64/Encoded.antt =====
-- The characters of three bytes, and of the one or two bytes at the end.
use cndl.Base.{
  ℕ, ◌+◌, ◌*◌, ◌/◌, ◌%◌, ◌^◌, ◌<◌, ◌≡◌, sym, ap, ◌∙◌, [], ◌∷◌, ◌++◌, Bytes, length, arith,
}
use cndl.Base64.Codec.{base64_char, push_chars, encode_loop, padding}

abbrev pub padded : Bytes → Bytes
padded out = out ++ padding (length out)

-- A byte that is put below the bits read so far leaves those behind.
below_low : (val b : ℕ) → b < 256 → (val * 2 ^ 8 + b) % 2 ^ 32 % 2 ^ 16 ≡ val % 2 ^ 8 * 2 ^ 8 + b
below_low val b h = omega arith

high_six : (val a : ℕ) → a < 256 → (val * 2 ^ 8 + a) % 2 ^ 32 / 2 ^ 2 % 64 ≡ a / 4
high_six val a h = omega arith

second_six : (val b : ℕ) → b < 256 → (val * 2 ^ 8 + b) % 2 ^ 32 / 2 ^ 4 % 64 ≡ val % 4 * 16 + b / 16
second_six val b h = omega arith

third_six : (val c : ℕ) → c < 256 → (val * 2 ^ 8 + c) % 2 ^ 32 / 2 ^ 6 % 64 ≡ val % 16 * 4 + c / 64
third_six val c h = omega arith

fourth_six : (val c : ℕ) → c < 256 → (val * 2 ^ 8 + c) % 2 ^ 32 / 2 ^ 0 % 64 ≡ c % 64
fourth_six val c h = omega arith

low_two : (val a : ℕ) → (val * 2 ^ 8 + a) % 2 ^ 32 % 4 ≡ a % 4
low_two val a = omega arith

low_four : (val a : ℕ) → (val * 2 ^ 8 + a) % 2 ^ 32 % 16 ≡ a % 16
low_four val a = omega arith

abbrev pub after : ℕ → ℕ → ℕ
after val b = (val * 2 ^ 8 + b) % 2 ^ 32

pub encode_three :
    (val a b c : ℕ) (s : Bytes)
    → a < 256
    → b < 256
    → c < 256
    → encode_loop val 0 (a ∷ b ∷ c ∷ s)
      ≡ base64_char (a / 4)
        ∷ base64_char (a % 4 * 16 + b / 16)
        ∷ base64_char (b % 16 * 4 + c / 64)
        ∷ base64_char (c % 64)
        ∷ encode_loop (after (after (after val a) b) c) 0 s
unfolding encode_loop push_chars
encode_three val a b c s ha hb hc = rw (
  sym (high_six val a ha),
  sym (second_six (after val a) b hb ∙ ap (λ n. n * 16 + b / 16) (low_two val a)),
  sym (
      third_six (after (after val a) b) c hc ∙ ap (λ n. n * 4 + c / 64) (low_four (after val a) b)),
  sym (fourth_six (after (after val a) b) c hc),
)

pub encode_one :
    (val a : ℕ)
    → a < 256
    → padded (encode_loop val 0 (a ∷ []))
      ≡ base64_char (a / 4) ∷ base64_char (a % 4 * 16) ∷ b'=' ∷ b'=' ∷ []
unfolding encode_loop push_chars
encode_one val a h =
    let last : after val a * 2 ^ 8 % 2 ^ 32 / 2 ^ 4 % 64 ≡ a % 4 * 16 = omega arith in
    rw (sym (high_six val a h), sym last)

pub encode_two :
    (val a b : ℕ)
    → a < 256
    → b < 256
    → padded (encode_loop val 0 (a ∷ b ∷ []))
      ≡ base64_char (a / 4)
        ∷ base64_char (a % 4 * 16 + b / 16)
        ∷ base64_char (b % 16 * 4)
        ∷ b'='
        ∷ []
unfolding encode_loop push_chars
encode_two val a b ha hb =
    let last : after (after val a) b * 2 ^ 8 % 2 ^ 32 / 2 ^ 6 % 64 ≡ b % 16 * 4 = omega arith in
    rw (
      sym (high_six val a ha),
      sym (second_six (after val a) b hb ∙ ap (λ n. n * 16 + b / 16) (low_two val a)),
      sym last,
    )
