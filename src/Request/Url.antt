-- ===== src/Request/Url.antt =====
-- `url_unescape` of Request.cpp.
use cndl.Base.{
  ℕ, zero, suc, ◌+◌, ◌-◌, ◌*◌, ◌%◌, ◌^◌, ◌&&◌, [], ◌∷◌, ◌++◌, Bytes, codes, length, leb, ltb, ◌==◌,
  if◌then◌else◌, Option, none, some, Result, ok, err, ◌>>=◌, error, stuck, at, substr, find_where,
  is_char, Exception,
}

abbrev pub bad_escape : Exception
bad_escape = error 400 (codes "Bad URL escaping")

-- The value of a hexadecimal digit.
unfoldable pub hex_digit : ℕ → Option ℕ
hex_digit c =
    if leb b'0' c && leb c b'9'
    then some (c - b'0')
    else if leb b'a' c && leb c b'f'
    then some (c - b'a' + 10)
    else if leb b'A' c && leb c b'F'
    then some (c - b'A' + 10)
    else none

-- A further digit of the number, if the second character is one; the parse ends there otherwise.
abbrev pub second_digit : ℕ → Option ℕ → ℕ
second_digit high none = high
second_digit high (some low) = high * 16 + low

-- The number after a minus sign, as `char(val)`.
abbrev pub negated : Option ℕ → Result ℕ
negated none = err bad_escape
negated (some d) = ok ((256 - d) % 256)

-- `std::from_chars(&str[pos+1], &str[pos+3], val, 16)` and `char(val)`. The second character is
-- read if the first is a digit or a minus sign; a character that stands outside the view is
-- `undefined`.
unfoldable pub read_escape : Bytes → ℕ → Result ℕ
read_escape str pos = do
  first ← at str (pos + 1)
  elim (hex_digit first) [
    | some high ↦ (do second ← at str (pos + 2); ok (second_digit high (hex_digit second)))
    | none ↦
        if first == b'-'
        then (do second ← at str (pos + 2); negated (hex_digit second))
        else err bad_escape
  ]

-- The count of `str.substr(start, pos - start)`.
abbrev pub up_to : Option ℕ → ℕ → Option ℕ
up_to none start = none
up_to (some pos) start = some (pos - start)

-- `str.size() - 2` in `size_t`.
abbrev pub size_less_two : Bytes → ℕ
size_less_two str = (length str + 2 ^ 64 - 2) % 2 ^ 64

-- The loop, with `start` and the text unescaped so far.
unfoldable pub unescape_loop : ℕ → Bytes → ℕ → Bytes → Result Bytes
unescape_loop zero str start unescaped = err stuck
unescape_loop (suc rounds) str start unescaped =
    let found = find_where (is_char b'%') start str in
    do
      chunk ← substr start (up_to found start) str
      elim found [
        | none ↦ ok (unescaped ++ chunk)
        | some pos ↦ if ltb (size_less_two str) pos then err bad_escape else (do
          val ← read_escape str pos
          unescape_loop rounds str (pos + 3) ((unescaped ++ chunk) ++ (val ∷ [])))
      ]

-- A round passes three characters, so that one round for each character is enough.
unfoldable pub url_unescape : Bytes → Result Bytes
url_unescape str = unescape_loop (length str + 1) str 0 []
