-- ===== src/Connection/Flush.antt =====
-- `flush_job` loses and repeats no byte, as long as `::send` does not fail.
use cndl.Base.{
  ℕ, zero, suc, ◌+◌, ◌-◌, ◌≤◌, ◌<◌, ◌≡◌, refl, ap, ◌∙◌, inl, inr, min, true, false, List, [], ◌∷◌,
  ◌++◌, Bytes, All, length, take, drop, ltb, arith, Bool-cases, append_assoc, take-append-drop,
  drop-add,
}
use cndl.Connection.Transmit.{Answer, takes, would_block, fails, Flushed, flush_loop}

abbrev pub IsFine : Answer → Type 0
IsFine fails = ⊥
IsFine _ = Unit

pub drop-all {ℓ} : {A : Type ℓ} (n : ℕ) (xs : List A) → length xs ≤ n → drop n xs ≡ []
drop-all zero [] h = refl
drop-all zero (x ∷ xs) h = absurd (omega arith)
drop-all (suc n) [] h = refl
drop-all (suc n) (x ∷ xs) h = drop-all n xs (omega arith)

-- What a run of the loop from `n` bytes sent has done.
pub record Sends (buf : Bytes) (n : ℕ) (f : Flushed) : Type 0 where
  pub splits : f.taken ++ drop f.bytes_sent buf ≡ drop n buf
  pub grows : n ≤ f.bytes_sent
  pub fits : f.bytes_sent ≤ length buf
  pub fine : All IsFine f.answers
  pub all_sent : f.is_done ≡ true → f.bytes_sent ≡ length buf
  pub some_left : f.is_done ≡ false → f.bytes_sent < length buf

pub flush_loop-Sends :
    (buf : Bytes) (n : ℕ) (answers : List Answer)
    → n ≤ length buf
    → All IsFine answers
    → Sends buf n (flush_loop buf n answers)
unfolding flush_loop
flush_loop-Sends buf n [] h fine = ground arith
flush_loop-Sends buf n (takes most ∷ left) h fine = elim (Bool-cases (ltb n (length buf))) [
  | inr full ↦ ground arith
  | inl more ↦
      let w = min (suc most) (length buf - n) in
      let later = flush_loop-Sends buf (n + w) left (omega arith) fine.1 in
      let f = flush_loop buf (n + w) left in
      let here : take w (drop n buf) ++ drop (n + w) buf ≡ drop n buf =
        rw (drop-add w n buf) (take-append-drop w (drop n buf)) in
      rw more (record {
        splits =
            append_assoc (take w (drop n buf)) f.taken (drop f.bytes_sent buf)
            ∙ ap (◌++◌ (take w (drop n buf))) later.splits
            ∙ here;
        grows = omega arith;
        fits = later.fits;
        fine = later.fine;
        all_sent = later.all_sent;
        some_left = later.some_left;
      })
]
flush_loop-Sends buf n (would_block ∷ left) h fine = ground arith
flush_loop-Sends buf n (fails ∷ left) h fine = absurd fine.0
