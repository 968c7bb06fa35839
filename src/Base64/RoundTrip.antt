-- ===== src/Base64/RoundTrip.antt =====
-- Encoded bytes are decoded again.
use cndl.Base.{
  ℕ, suc, ◌+◌, ◌*◌, ◌/◌, ◌%◌, ◌≡◌, refl, ap, ◌∙◌, [], ◌∷◌, ◌++◌, Bytes, length, AreBytes, arith,
}
use cndl.Base64.Codec.{base64_char, encode_loop, padding, base64_encode, decode_loop, base64_decode}
use cndl.Base64.Encoded.{padded, after, encode_one, encode_two, encode_three}
use cndl.Base64.Decoded.{joined, decode_two, decode_three, decode_four, decode_stops}

pub padding-period : (n : ℕ) → padding (suc (suc (suc (suc n)))) ≡ padding n
padding-period n = let e : suc (suc (suc (suc n))) % 4 ≡ n % 4 = omega arith in rw e

decode_loop-padded :
    (w val : ℕ) (s : Bytes) → AreBytes s → decode_loop w 0 (padded (encode_loop val 0 s)) ≡ s
decode_loop-padded w val [] h = unfold encode_loop decode_loop in refl
decode_loop-padded w val (a ∷ []) (ha, h) =
    let whole : a / 4 * 4 + a % 4 * 16 / 16 ≡ a = omega arith in
    ap (decode_loop w 0) (encode_one val a ha)
    ∙ decode_two w (a / 4) (a % 4 * 16) (omega arith) (omega arith) (b'=' ∷ b'=' ∷ [])
    ∙ ap (λ t. (a / 4 * 4 + a % 4 * 16 / 16) ∷ t) (decode_stops _ _ _)
    ∙ ap (λ x. x ∷ []) whole
decode_loop-padded w val (a ∷ b ∷ []) (ha, (hb, h)) =
    let i = a / 4 in
    let j = a % 4 * 16 + b / 16 in
    let k = b % 16 * 4 in
    let first : i * 4 + j / 16 ≡ a = omega arith in
    let second : j % 16 * 16 + k / 4 ≡ b = omega arith in
    ap (decode_loop w 0) (encode_two val a b ha hb)
    ∙ decode_three w i j (omega arith) (omega arith) k (omega arith) (b'=' ∷ [])
    ∙ ap (λ t. (i * 4 + j / 16) ∷ (j % 16 * 16 + k / 4) ∷ t) (decode_stops _ _ _)
    ∙ rw (first, second)
decode_loop-padded w val (a ∷ b ∷ c ∷ s) (ha, (hb, (hc, h))) =
    let i = a / 4 in
    let j = a % 4 * 16 + b / 16 in
    let k = b % 16 * 4 + c / 64 in
    let l = c % 64 in
    let val' = after (after (after val a) b) c in
    let first : i * 4 + j / 16 ≡ a = omega arith in
    let second : j % 16 * 16 + k / 4 ≡ b = omega arith in
    let third : k % 4 * 64 + l ≡ c = omega arith in
    ap (λ t. decode_loop w 0 (padded t)) (encode_three val a b c s ha hb hc)
    ∙ ap
        (λ t. decode_loop w 0 (
          base64_char i ∷ base64_char j ∷ base64_char k ∷ base64_char l ∷ encode_loop val' 0 s
          ++ t))
        (padding-period (length (encode_loop val' 0 s)))
    ∙ decode_four w i j (omega arith) (omega arith) k (omega arith) l
        (padded (encode_loop val' 0 s)) (omega arith)
    ∙ ap (λ t. (i * 4 + j / 16) ∷ (j % 16 * 16 + k / 4) ∷ (k % 4 * 64 + l) ∷ t)
        (decode_loop-padded (joined (joined (joined (joined w i) j) k) l) val' s h)
    ∙ rw (first, second, third)

-- The decoder gives back the bytes that were encoded, whatever their number, behind the padding too.
pub base64_decode-base64_encode : (s : Bytes) → AreBytes s → base64_decode (base64_encode s) ≡ s
unfolding base64_decode base64_encode
base64_decode-base64_encode s h = decode_loop-padded 0 0 s h
