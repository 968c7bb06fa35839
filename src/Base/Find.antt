-- ===== src/Base/Find.antt =====
-- Where a text is found in another, and that it stays there when more text stands behind.
use Prim.Native.Nat.{ℕ, suc, ◌+◌, ◌≤◌}
use mathlib.Core.Path.{◌≡◌, refl, ap}
use mathlib.Core.Bool.{true, ◌&&◌}
use mathlib.Core.Logic.{inl, inr}
use mathlib.Core.Option.{some}
use mathlib.Core.List.{[], ◌∷◌, ◌++◌}
use native.Mathlib.Omega.{arith}
use cndl.Base.Tests.{◌==◌, Bool-cases, Option-cases}
use cndl.Base.Lists.{length}
use cndl.Base.Text.{Bytes}
use cndl.Base.View.{starts_with, index_of}

starts_with-append :
    (p v w : Bytes) → length p ≤ length v → starts_with p (v ++ w) ≡ starts_with p v
starts_with-append [] v w h = refl
starts_with-append (x ∷ p) [] w h = absurd (omega arith)
starts_with-append (x ∷ p) (y ∷ v) w h = ap (◌&&◌ (y == x)) (starts_with-append p v w (omega arith))

pub starts_with-le : (p v : Bytes) → starts_with p v ≡ true → length p ≤ length v
starts_with-le [] v h = omega arith
starts_with-le (x ∷ p) [] h = cc
starts_with-le (x ∷ p) (y ∷ v) h = let k = starts_with-le p v in ground (arith, starts_with-le p v)

starts_with_self : (p w : Bytes) → starts_with p (p ++ w) ≡ true
starts_with_self [] w = refl
starts_with_self (x ∷ p) w = ground (arith, starts_with_self p w)

pub found_fits : (p v : Bytes) {i : ℕ} → index_of p v ≡ some i → length p + i ≤ length v
found_fits p [] {i} h = elim (Bool-cases (starts_with p [])) [
  | inl here ↦
      let k = starts_with-le p [] here in let e : 0 ≡ i = ground (arith, here) in omega arith
  | inr nowhere ↦ absurd (ground (arith, nowhere))
]
found_fits p (x ∷ v) {i} h = elim (Bool-cases (starts_with p (x ∷ v))) [
  | inl here ↦
      let k = starts_with-le p (x ∷ v) here in let e : 0 ≡ i = ground (arith, here) in omega arith
  | inr later ↦ elim (Option-cases (index_of p v)) [
    | inl nothing ↦ absurd (ground (arith, later, nothing))
    | inr (j, found) ↦
        let k = found_fits p v found in
        let e : suc j ≡ i = ground (arith, later, found) in omega arith
  ]
]

-- What is found in a text is found there too when more text stands behind it.
pub index_of-append : (p v w : Bytes) {i : ℕ} → index_of p v ≡ some i → index_of p (v ++ w) ≡ some i
index_of-append [] [] [] h = h
index_of-append [] [] (y ∷ w) h = h
index_of-append (x ∷ p) [] w h = cc
index_of-append p (x ∷ v) w {i} h =
    let fits = found_fits p (x ∷ v) h in
    let same = starts_with-append p (x ∷ v) w (omega arith) in
    elim (Bool-cases (starts_with p (x ∷ v))) [
      | inl here ↦ rw (same, here) (rw here at h)
      | inr later ↦ elim (Option-cases (index_of p v)) [
        | inl nothing ↦ absurd (ground (arith, later, nothing))
        | inr (j, found) ↦ rw (same, later, index_of-append p v w found) (rw (later, found) at h)
      ]
    ]
