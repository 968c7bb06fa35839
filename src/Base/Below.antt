-- ===== src/Base/Below.antt =====
-- A test that every number below a bound passes.
use Prim.Native.Nat.{ℕ, zero, suc, ◌<◌}
use mathlib.Core.Path.{◌≡◌}
use mathlib.Core.Bool.{Bool, true, ◌&&◌}
use mathlib.Core.Logic.{inl, inr}
use native.Mathlib.Omega.{arith}
use cndl.Base.Tests.{ltb, ltb→lt, Bool-cases}

unfoldable pub passes_below : (ℕ → Bool) → ℕ → Bool
passes_below test zero = true
passes_below test (suc bound) = passes_below test bound && test bound

pub passes_below_lem :
    (test : ℕ → Bool) (bound : ℕ)
    → passes_below test bound ≡ true
    → (i : ℕ) → i < bound
    → test i ≡ true
unfolding passes_below
passes_below_lem test zero h i k = absurd (omega arith)
passes_below_lem test (suc bound) h i k = elim (Bool-cases (ltb i bound)) [
  | inl inside ↦ passes_below_lem test bound (ground arith) i (ltb→lt i bound inside)
  | inr last ↦ let e : i ≡ bound = ground arith in rw e (ground arith)
]
