-- ===== src/Base64/Codec.antt =====
-- The encoder and the decoder of base64.cpp. `val` is an `int`: its 32 bits are kept as a number
-- below 2^32. `valb` is never below -6 in the encoder and -8 in the decoder: it is kept as
-- `bits`, which is `valb + 6` there and `valb + 8` here. The bits that are read of `val` lie below
-- its sign, so that the shift of the number reads them as the arithmetic shift does.
use cndl.Base.{
  ℕ, zero, suc, ◌+◌, ◌-◌, ◌*◌, ◌/◌, ◌%◌, ◌^◌, List, [], ◌∷◌, ◌++◌, Bytes, codes, length, get_or,
  ltb, leb, ◌==◌, if◌then◌else◌,
}

abbrev pub base64_chars : Bytes
base64_chars = codes "ABCDEFGHIJKLMNOPQRSTUVWXYZabcdefghijklmnopqrstuvwxyz0123456789+/"

-- `base64_chars[i]`, for `i` below 64
abbrev pub base64_char : ℕ → ℕ
base64_char i = get_or base64_chars i 0

-- The loop `while (valb >= 0)` for one byte: `bits` is at most 13 then, so two rounds are enough.
unfoldable pub push_chars : ℕ → ℕ → ℕ → Bytes
push_chars zero val bits = []
push_chars (suc fuel) val bits =
    let rest = push_chars fuel val (bits - 6) in
    if ltb bits 6 then [] else base64_char (val / 2 ^ (bits - 6) % 64) ∷ rest

-- `valb` behind that loop.
abbrev pub bits_left : ℕ → ℕ
bits_left bits = bits % 6

-- The loop on the bytes, and the last character.
unfoldable pub encode_loop : ℕ → ℕ → Bytes → Bytes
encode_loop val bits [] =
    if bits == 0 then [] else base64_char (val * 2 ^ 8 % 2 ^ 32 / 2 ^ (bits + 2) % 64) ∷ []
encode_loop val bits (b ∷ s) =
    let val' = (val * 2 ^ 8 + b) % 2 ^ 32 in
    push_chars 2 val' (bits + 8) ++ encode_loop val' (bits_left (bits + 8)) s

-- `while (out.size() % 4)`
abbrev pub padding : ℕ → Bytes
padding size =
    if size % 4 == 0
    then []
    else if size % 4 == 1
    then codes "==="
    else if size % 4 == 2
    then codes "=="
    else codes "="

unfoldable pub base64_encode : Bytes → Bytes
base64_encode s = let out = encode_loop 0 0 s in out ++ padding (length out)

abbrev pub lookup : List ℕ
lookup =
    62 ∷ 255 ∷ 62 ∷ 255 ∷ 63 ∷ 52 ∷ 53 ∷ 54 ∷ 55 ∷ 56 ∷ 57 ∷ 58 ∷ 59 ∷ 60 ∷ 61 ∷ 255 ∷ 255 ∷ 0 ∷ 255
    ∷ 255 ∷ 255 ∷ 255 ∷ 0 ∷ 1 ∷ 2 ∷ 3 ∷ 4 ∷ 5 ∷ 6 ∷ 7 ∷ 8 ∷ 9 ∷ 10 ∷ 11 ∷ 12 ∷ 13 ∷ 14 ∷ 15 ∷ 16
    ∷ 17 ∷ 18 ∷ 19 ∷ 20 ∷ 21 ∷ 22 ∷ 23 ∷ 24 ∷ 25 ∷ 255 ∷ 255 ∷ 255 ∷ 255 ∷ 63 ∷ 255 ∷ 26 ∷ 27 ∷ 28
    ∷ 29 ∷ 30 ∷ 31 ∷ 32 ∷ 33 ∷ 34 ∷ 35 ∷ 36 ∷ 37 ∷ 38 ∷ 39 ∷ 40 ∷ 41 ∷ 42 ∷ 43 ∷ 44 ∷ 45 ∷ 46 ∷ 47
    ∷ 48 ∷ 49 ∷ 50 ∷ 51 ∷ []

-- The entry of a character; 255 outside the table.
abbrev pub lookup_char : ℕ → ℕ
lookup_char c = if ltb c b'+' then 255 else if ltb b'z' c then 255 else get_or lookup (c - b'+') 255

-- The loop of the decoder, which ends at the first character that has no entry.
unfoldable pub decode_loop : ℕ → ℕ → Bytes → Bytes
decode_loop val bits [] = []
decode_loop val bits (c ∷ text) =
    let val' = (val * 2 ^ 6 + lookup_char c) % 2 ^ 32 in
    let emits = leb 8 (bits + 6) in
    let rest = decode_loop val' (if emits then bits + 6 - 8 else bits + 6) text in
    if lookup_char c == 255
    then []
    else if emits
    then val' / 2 ^ (bits + 6 - 8) % 256 ∷ rest
    else rest

unfoldable pub base64_decode : Bytes → Bytes
base64_decode = decode_loop 0 0
