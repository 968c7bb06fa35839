-- ===== src/Response/Decimal.antt =====
-- `std::to_string` of an integer.
use cndl.Base.{
  ℤ, ℕ, zero, suc, ◌+◌, ◌-◌, ◌*◌, ◌/◌, ◌%◌, ◌<◌, ◌≡◌, refl, [], ◌∷◌, ◌++◌, Bytes, true, false, ltb,
  ltb→lt, ltb→ge, arith, Bool-cases, inl, inr, All, All-append, length, length-append, ◌≤◌,
}

-- The digits of a number below the fuel.
unfoldable pub digits : ℕ → ℕ → Bytes
digits zero n = []
digits (suc fuel) n = elim (ltb n 10) [
  | true ↦ (b'0' + n) ∷ []
  | false ↦ digits fuel (n / 10) ++ ((b'0' + n % 10) ∷ [])
]

unfoldable pub decimal : ℕ → Bytes
decimal n = digits (suc n) n

unfoldable pub to_string : ℤ → Bytes
to_string (ℤ.pos n) = decimal n
to_string (ℤ.negsuc n) = b'-' ∷ decimal (suc n)

-- The number that digits write, after a number read before.
unfoldable pub number_after : ℕ → Bytes → ℕ
number_after n [] = n
number_after n (d ∷ ds) = number_after (n * 10 + (d - b'0')) ds

unfoldable pub read_decimal : Bytes → ℕ
read_decimal = number_after 0

number_after-append :
    (n : ℕ) (ds : Bytes) (d : ℕ)
    → number_after n (ds ++ (d ∷ [])) ≡ number_after n ds * 10 + (d - b'0')
unfolding number_after
number_after-append n [] d = refl
number_after-append n (x ∷ ds) d = number_after-append (n * 10 + (x - b'0')) ds d

digits-small : (fuel n : ℕ) → ltb n 10 ≡ true → digits (suc fuel) n ≡ (b'0' + n) ∷ []
unfolding digits
digits-small fuel n h = rw (h, digits)

digits-large :
    (fuel n : ℕ)
    → ltb n 10 ≡ false
    → digits (suc fuel) n ≡ digits fuel (n / 10) ++ ((b'0' + n % 10) ∷ [])
unfolding digits
digits-large fuel n h = rw (h, digits)

number_after-digits : (fuel n : ℕ) → n < fuel → number_after 0 (digits fuel n) ≡ n
unfolding digits number_after
number_after-digits zero n h = absurd (omega arith)
number_after-digits (suc fuel) n h = elim (Bool-cases (ltb n 10)) [
  | inl small ↦ rw (digits-small fuel n small) (omega arith)
  | inr large ↦
      let big = ltb→ge n 10 large in
      rw
        (
          digits-large fuel n large,
          number_after-append 0 (digits fuel (n / 10)) (b'0' + n % 10),
          number_after-digits fuel (n / 10) (omega (arith, big)),
        )
        (omega arith)
]

-- The digits of a number are read back.
pub read_decimal-decimal : (n : ℕ) → read_decimal (decimal n) ≡ n
unfolding read_decimal decimal
read_decimal-decimal n = number_after-digits (suc n) n (omega arith)

abbrev pub IsDigit : ℕ → Type 0
IsDigit d = (b'0' < suc d) × (d < b'0' + 10)

digits-AreDigits : (fuel n : ℕ) → All IsDigit (digits fuel n)
unfolding digits
digits-AreDigits zero n = tt
digits-AreDigits (suc fuel) n = elim (Bool-cases (ltb n 10)) [
  | inl small ↦ rw (digits-small fuel n small) ((omega arith, omega (arith, ltb→lt n 10 small)), tt)
  | inr large ↦ rw (digits-large fuel n large) (
      All-append IsDigit (digits fuel (n / 10)) ((b'0' + n % 10) ∷ [])
        (digits-AreDigits fuel (n / 10)) ((omega arith, omega arith), tt))
]

pub decimal-AreDigits : (n : ℕ) → All IsDigit (decimal n)
unfolding decimal
decimal-AreDigits n = digits-AreDigits (suc n) n

length-digits : (fuel n : ℕ) → length (digits fuel n) ≤ fuel
unfolding digits
length-digits zero n = omega arith
length-digits (suc fuel) n = elim (Bool-cases (ltb n 10)) [
  | inl small ↦ rw (digits-small fuel n small) (omega arith)
  | inr large ↦ rw (digits-large fuel n large) (
      omega (
        arith,
        length-append (digits fuel (n / 10)) ((b'0' + n % 10) ∷ []),
        length-digits fuel (n / 10),
      ))
]

pub length-decimal : (n : ℕ) → length (decimal n) ≤ suc n
unfolding decimal
length-decimal n = length-digits (suc n) n

filled-digits : (fuel n : ℕ) → 0 < length (digits (suc fuel) n)
filled-digits fuel n = elim (Bool-cases (ltb n 10)) [
  | inl small ↦ rw (digits-small fuel n small) (omega arith)
  | inr large ↦
      rw (digits-large fuel n large)
        (omega (arith, length-append (digits fuel (n / 10)) ((b'0' + n % 10) ∷ [])))
]

pub filled-decimal : (n : ℕ) → 0 < length (decimal n)
unfolding decimal
filled-decimal n = filled-digits n n
