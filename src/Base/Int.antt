-- ===== src/Base/Int.antt =====
-- Signed integers.
use Prim.Native.Nat.{ℕ, ◌+◌, ◌-◌}
use mathlib.Core.Path.{◌≡◌}
use mathlib.Core.Bool.{Bool, true, false}
use native.Mathlib.Omega.{arith}
use cndl.Base.Tests.{ltb, leb, if◌then◌else◌}

pub data ℤ : Type 0 where
  pos negsuc : ℕ → ℤ

-- The difference of two sizes.
abbrev pub minus : ℕ → ℕ → ℤ
minus m n = if leb n m then ℤ.pos (m - n) else ℤ.negsuc (n - m - 1)

abbrev pub subtract : ℤ → ℕ → ℤ
subtract (ℤ.pos m) n = minus m n
subtract (ℤ.negsuc m) n = ℤ.negsuc (m + n)

abbrev pub less : ℤ → ℤ → Bool
less (ℤ.pos m) (ℤ.pos n) = ltb m n
less (ℤ.pos m) (ℤ.negsuc n) = false
less (ℤ.negsuc m) (ℤ.pos n) = true
less (ℤ.negsuc m) (ℤ.negsuc n) = ltb n m

-- Of two differences from one size the smaller takes more away.
pub less-minus : (s m n : ℕ) → less (minus s m) (minus s n) ≡ ltb n m
less-minus s m n = ground arith

pub subtract-minus : (s m n : ℕ) → subtract (minus s m) n ≡ minus s (m + n)
subtract-minus s m n = ground arith

pub less_irrefl : (z : ℤ) → less z z ≡ false
less_irrefl (ℤ.pos n) = ground arith
less_irrefl (ℤ.negsuc n) = ground arith
