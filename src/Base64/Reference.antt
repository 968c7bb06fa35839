-- ===== src/Base64/Reference.antt =====
-- The base64 of RFC 4648, by groups of three bytes, and the encoder.
use cndl.Base.{
  ℕ, ◌+◌, ◌*◌, ◌/◌, ◌%◌, ◌≡◌, refl, ap, ◌∙◌, [], ◌∷◌, ◌++◌, Bytes, codes, length, get_or, AreBytes,
}
use cndl.Base64.Codec.{base64_char, encode_loop, base64_encode}
use cndl.Base64.Encoded.{padded, after, encode_one, encode_two, encode_three}
use cndl.Base64.RoundTrip.{padding-period}

-- The alphabet of RFC 4648, table 1.
abbrev pub alphabet : Bytes
alphabet = codes "ABCDEFGHIJKLMNOPQRSTUVWXYZabcdefghijklmnopqrstuvwxyz0123456789+/"

abbrev pub letter : ℕ → ℕ
letter i = get_or alphabet i 0

-- Three bytes are four characters; one or two bytes at the end are padded.
abbrev pub rfc_base64 : Bytes → Bytes
rfc_base64 [] = []
rfc_base64 (a ∷ []) = letter (a / 4) ∷ letter (a % 4 * 16) ∷ b'=' ∷ b'=' ∷ []
rfc_base64 (a ∷ b ∷ []) =
    letter (a / 4) ∷ letter (a % 4 * 16 + b / 16) ∷ letter (b % 16 * 4) ∷ b'=' ∷ []
rfc_base64 (a ∷ b ∷ c ∷ s) =
    letter (a / 4)
    ∷ letter (a % 4 * 16 + b / 16)
    ∷ letter (b % 16 * 4 + c / 64)
    ∷ letter (c % 64)
    ∷ rfc_base64 s

padded-rfc_base64 : (val : ℕ) (s : Bytes) → AreBytes s → padded (encode_loop val 0 s) ≡ rfc_base64 s
padded-rfc_base64 val [] h = unfold encode_loop in refl
padded-rfc_base64 val (a ∷ []) (ha, h) = encode_one val a ha
padded-rfc_base64 val (a ∷ b ∷ []) (ha, (hb, h)) = encode_two val a b ha hb
padded-rfc_base64 val (a ∷ b ∷ c ∷ s) (ha, (hb, (hc, h))) =
    let val' = after (after (after val a) b) c in
    let four : Bytes → Bytes = λ t.
      base64_char (a / 4)
      ∷ base64_char (a % 4 * 16 + b / 16)
      ∷ base64_char (b % 16 * 4 + c / 64)
      ∷ base64_char (c % 64)
      ∷ t in
    ap padded (encode_three val a b c s ha hb hc)
    ∙ ap (λ t. four (encode_loop val' 0 s ++ t)) (padding-period (length (encode_loop val' 0 s)))
    ∙ ap four (padded-rfc_base64 val' s h)

-- The encoder gives the base64 of RFC 4648, with its padding.
pub base64_encode-eq-rfc_base64 : (s : Bytes) → AreBytes s → base64_encode s ≡ rfc_base64 s
unfolding base64_encode
base64_encode-eq-rfc_base64 s h = padded-rfc_base64 0 s h
