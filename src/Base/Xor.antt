-- ===== src/Base/Xor.antt =====
-- `^` of two bytes is a byte, and undoes itself.
use Prim.Native.Nat.{ℕ, ◌<◌, bit_xor}
use mathlib.Core.Path.{◌≡◌, refl}
use mathlib.Core.Bool.{Bool, true, ◌&&◌}
use native.Mathlib.Omega.{arith}
use cndl.Base.Tests.{ltb, ◌==◌}
use cndl.Base.Below.{passes_below, passes_below_lem}

undoes : ℕ → ℕ → Bool
undoes k x = ltb (bit_xor x k) 256 && (bit_xor (bit_xor x k) k == x)

undoes_bytes : passes_below (λ k. passes_below (undoes k) 256) 256 ≡ true
unfolding passes_below undoes
undoes_bytes = refl

undoes_lem : (x k : ℕ) → x < 256 → k < 256 → undoes k x ≡ true
undoes_lem x k small byte =
    let row = passes_below_lem (λ j. passes_below (undoes j) 256) 256 undoes_bytes k byte in
    passes_below_lem (undoes k) 256 row x small

pub bit_xor-bit_xor : (x k : ℕ) → x < 256 → k < 256 → bit_xor (bit_xor x k) k ≡ x
unfolding undoes
bit_xor-bit_xor x k small byte = ground (arith, undoes_lem x k)

pub bit_xor-lt : (x k : ℕ) → x < 256 → k < 256 → bit_xor x k < 256
unfolding undoes
bit_xor-lt x k small byte = ground (arith, undoes_lem x k)
