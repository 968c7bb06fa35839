-- ===== src/Dispatcher/Extract.antt =====
-- The arguments of a handler, taken from the submatches of its pattern (Extractor.h, Route.h).
use cndl.Base.{
  ℤ, ℕ, zero, suc, ◌<◌, ◌^◌, ◌≡◌, refl, ap, ◌∙◌, List, [], ◌∷◌, Bytes, Bool, true, false, ltb, leb,
  ◌==◌, ◌&&◌, if◌then◌else◌, Option, none, some, length, All, arith,
}
use cndl.Response.Decimal.{
  decimal, to_string, read_decimal, read_decimal-decimal, IsDigit, decimal-AreDigits,
  filled-decimal,
}

abbrev pub are_digits : Bytes → Bool
are_digits [] = true
are_digits (d ∷ ds) = leb b'0' d && leb d b'9' && are_digits ds

-- `int(-n)`
abbrev pub negative : ℕ → ℤ
negative zero = ℤ.pos 0
negative (suc n) = ℤ.negsuc n

-- The digits as a whole: `none` if there are none or something else stands behind them.
abbrev pub magnitude : Bytes → Option ℕ
magnitude [] = none
magnitude (d ∷ ds) = if are_digits (d ∷ ds) then some (read_decimal (d ∷ ds)) else none

-- The number in an `int` that was 0 before, as `ParameterTuple args` leaves it: a number outside an
-- `int` is `result_out_of_range`, which is accepted and leaves the 0.
abbrev pub accept : Option ℕ → Option ℤ
accept none = none
accept (some n) = if ltb n (2 ^ 31) then some (ℤ.pos n) else some (ℤ.pos 0)

abbrev pub accept_negative : Option ℕ → Option ℤ
accept_negative none = none
accept_negative (some n) = if leb n (2 ^ 31) then some (negative n) else some (ℤ.pos 0)

-- `Extractor<int>::extract`
unfoldable pub extract_int : Bytes → Option ℤ
extract_int [] = none
extract_int (c ∷ text) =
    if c == b'-' then accept_negative (magnitude text) else accept (magnitude (c ∷ text))

-- The types of the parameters of a handler.
pub data Parameter : Type 0 where
  text number : Parameter

pub data Argument : Type 0 where
  text_argument : Bytes → Argument
  number_argument : ℤ → Argument

abbrev pub number_of : Option ℤ → Option Argument
number_of none = none
number_of (some n) = some (number_argument n)

abbrev pub extract_one : Parameter → Bytes → Option Argument
extract_one text sub_match = some (text_argument sub_match)
extract_one number sub_match = number_of (extract_int sub_match)

abbrev pub with_first : Option Argument → Option (List Argument) → Option (List Argument)
with_first (some a) (some args) = some (a ∷ args)
with_first _ _ = none

-- `extract<0>`; a submatch that the match does not have is empty.
unfoldable pub extract : List Parameter → List Bytes → Option (List Argument)
extract [] sub_matches = some []
extract (p ∷ ps) [] = with_first (extract_one p []) (extract ps [])
extract (p ∷ ps) (m ∷ ms) = with_first (extract_one p m) (extract ps ms)

pub are_digits-AreDigits : (ds : Bytes) → All IsDigit ds → are_digits ds ≡ true
are_digits-AreDigits [] h = refl
are_digits-AreDigits (d ∷ ds) h = let k = h.0 in ground (arith, are_digits-AreDigits ds h.1)

magnitude-digits :
    (ds : Bytes) → 0 < length ds → All IsDigit ds → magnitude ds ≡ some (read_decimal ds)
magnitude-digits [] n h = absurd (omega arith)
magnitude-digits (d ∷ ds) n h = rw (are_digits-AreDigits (d ∷ ds) h)

magnitude-decimal : (n : ℕ) → magnitude (decimal n) ≡ some n
magnitude-decimal n =
    magnitude-digits (decimal n) (filled-decimal n) (decimal-AreDigits n)
    ∙ ap some (read_decimal-decimal n)

-- An `int` is read back from its text; every number beyond is read as 0.
abbrev pub as_int : ℤ → ℤ
as_int (ℤ.pos n) = if ltb n (2 ^ 31) then ℤ.pos n else ℤ.pos 0
as_int (ℤ.negsuc n) = if ltb n (2 ^ 31) then ℤ.negsuc n else ℤ.pos 0

if_some :
    (b : Bool) (z : ℤ) → (if b then some z else some (ℤ.pos 0)) ≡ some (if b then z else ℤ.pos 0)
if_some true z = refl
if_some false z = refl

digit_first :
    (ds : Bytes) (n : ℕ)
    → All IsDigit ds
    → magnitude ds ≡ some n
    → extract_int ds ≡ some (as_int (ℤ.pos n))
unfolding extract_int
digit_first [] n h e = cc
digit_first (d ∷ ds) n h e =
    let k = h.0 in
    let plain : (d == b'-') ≡ false = ground arith in
    rw (plain, e) (if_some (ltb n (2 ^ 31)) (ℤ.pos n))

-- The text of an integer that fits an `int` is extracted as that integer, and the text of every
-- other integer as 0.
pub extract_int-to_string : (z : ℤ) → extract_int (to_string z) ≡ some (as_int z)
unfolding to_string extract_int
extract_int-to_string (ℤ.pos n) =
    digit_first (decimal n) n (decimal-AreDigits n) (magnitude-decimal n)
extract_int-to_string (ℤ.negsuc n) = rw (magnitude-decimal (suc n)) (ground arith)
