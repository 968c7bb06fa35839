-- ===== src/Base/Throws.antt =====
-- C++ exceptions as values (Error.h), and the views whose accesses may throw.
use Prim.Native.Nat.{ℕ, zero, suc, ◌≤◌}
use mathlib.Core.Path.{◌≡◌, refl}
use mathlib.Core.List.{[], ◌∷◌, ◌++◌}
use mathlib.Core.Option.{Option, none, some}
use native.Mathlib.Omega.{arith}
use cndl.Base.Tests.{ltb, if◌then◌else◌}
use cndl.Base.Lists.{length, get_elem?, take, drop, drop-append_le, length-append}
use cndl.Base.Text.{Bytes}

-- What leaves a function other than by a return: `cndl::Error` with its code and message, the
-- standard exceptions that the code can meet (`std::runtime_error` with its text), and `undefined` for an access outside a view, for
-- which the language promises nothing. `stuck` is none of the code: a loop of the model has used up
-- its rounds.
pub data Exception : Type 0 where
  error : ℕ → Bytes → Exception
  runtime_error : Bytes → Exception
  out_of_range invalid_argument length_error undefined stuck : Exception

pub data Result {ℓ} (A : Type ℓ) : Type ℓ where
  ok : A → Result A
  err : Exception → Result A

-- What follows a call is left out when the call throws.
module _ {ℓ κ} {A : Type ℓ} {B : Type κ} where
  infixl 5 ◌>>=◌
  abbrev pub ◌>>=◌ : Result A → (A → Result B) → Result B
  err thrown >>= next = err thrown
  ok value >>= next = next value

  pub >>=-eq-ok :
      (first : Result A) (next : A → Result B) {result : B}
      → first >>= next ≡ ok result
      → (value : A) × (first ≡ ok value) × (next value ≡ ok result)
  >>=-eq-ok (err thrown) next h = cc
  >>=-eq-ok (ok value) next h = (value, refl, h)

-- `view[i]`
abbrev pub at : Bytes → ℕ → Result ℕ
at v i = elim (get_elem? v i) [ none ↦ err undefined | some b ↦ ok b ]

-- `view.substr(pos, count)`; `none` for a count up to the end of the view.
unfoldable pub substr : ℕ → Option ℕ → Bytes → Result Bytes
substr pos none v = if ltb (length v) pos then err out_of_range else ok (drop pos v)
substr pos (some count) v =
    if ltb (length v) pos then err out_of_range else ok (take count (drop pos v))

-- `view.substr(pos)`
unfoldable pub substr_from : ℕ → Bytes → Result Bytes
substr_from pos v = if ltb (length v) pos then err out_of_range else ok (drop pos v)

-- An access that succeeds finds the same in a longer view.
pub at-append : (v w : Bytes) (i : ℕ) {b : ℕ} → at v i ≡ ok b → at (v ++ w) i ≡ ok b
at-append [] w i h = cc
at-append (x ∷ v) w zero h = h
at-append (x ∷ v) w (suc i) h = at-append v w i h

pub substr_from-append :
    (n : ℕ) (v w : Bytes) {r : Bytes}
    → substr_from n v ≡ ok r
    → substr_from n (v ++ w) ≡ ok (r ++ w)
unfolding substr_from
substr_from-append n v w h = ground (arith, length-append v w, drop-append_le n v w)

pub substr_from-eq-drop :
    (n : ℕ) (v : Bytes) {r : Bytes} → substr_from n v ≡ ok r → (n ≤ length v) × (r ≡ drop n v)
unfolding substr_from
substr_from-eq-drop n v h = ground arith

pub substr_from-eq-ok : (n : ℕ) (v : Bytes) → n ≤ length v → substr_from n v ≡ ok (drop n v)
unfolding substr_from
substr_from-eq-ok n v h = ground arith
