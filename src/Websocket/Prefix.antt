-- ===== src/Websocket/Prefix.antt =====
-- A frame that is read from the front of a buffer is read from every longer buffer too.
use cndl.Base.{
  ℕ, zero, suc, ◌+◌, ◌-◌, ◌%◌, ◌≤◌, ◌≡◌, refl, sym, ap, ◌∙◌, Bool, ◌++◌, Bytes, inl, inr, length,
  drop, ltb, ge→ltb, ◌≢◌, ◌==◌, if◌then◌else◌, Result, ok, ◌>>=◌, at, arith, substr_from, at-append,
  substr_from-append, substr_from-eq-drop, >>=-eq-ok, Bool-cases, length-append, drop-append_le,
  take-append_le, drop-add, length-drop,
}
use cndl.Websocket.Types.{OpCode}
use cndl.Websocket.Frame.{
  Frame, Reading, incomplete, unmasked, complete, read_u64, read_length16, read_length64,
  read_length, read_payload, read_masked, read_frame,
}

read_u64-append :
    (n i acc : ℕ) (v w : Bytes) {r : ℕ}
    → read_u64 n i acc v ≡ ok r
    → read_u64 n i acc (v ++ w) ≡ ok r
unfolding read_u64
read_u64-append zero i acc v w h = h
read_u64-append (suc n) i acc v w h =
    let (b, e, h') = >>=-eq-ok (at v i) _ h in
    rw (at-append v w i e) (read_u64-append n (i + 1) _ v w h')

read_length16-append :
    (v w : Bytes) {n used : ℕ} {r : Bytes}
    → read_length16 v ≡ ok (n, r, used)
    → read_length16 (v ++ w) ≡ ok (n, r ++ w, used)
unfolding read_length16
read_length16-append v w h =
    let (hi, e0, h0) = >>=-eq-ok (at v 0) _ h in
    let (lo, e1, h1) = >>=-eq-ok (at v 1) _ h0 in
    let (rest, e2, h2) = >>=-eq-ok (substr_from 2 v) _ h1 in
    rw (at-append v w 0 e0, at-append v w 1 e1, substr_from-append 2 v w e2) (ground arith)

read_length64-append :
    (v w : Bytes) {n used : ℕ} {r : Bytes}
    → read_length64 v ≡ ok (n, r, used)
    → read_length64 (v ++ w) ≡ ok (n, r ++ w, used)
unfolding read_length64
read_length64-append v w h =
    let (m, e0, h0) = >>=-eq-ok (read_u64 8 0 0 v) _ h in
    let (rest, e1, h1) = >>=-eq-ok (substr_from 8 v) _ h0 in
    rw (read_u64-append 8 0 0 v w e0, substr_from-append 8 v w e1) (ground arith)

read_length-append :
    (len : ℕ) (v w : Bytes) {n used : ℕ} {r : Bytes}
    → read_length len v ≡ ok (n, r, used)
    → read_length len (v ++ w) ≡ ok (n, r ++ w, used)
unfolding read_length
read_length-append len v w {n} {used} {r} h = ground (
  arith,
  read_length16-append v w {n = n} {used = used} {r = r},
  read_length64-append v w {n = n} {used = used} {r = r},
)

read_payload-append :
    (fin : Bool) (op : OpCode) (n used : ℕ) (v w : Bytes) {frame : Frame} {m : ℕ} {r : Bytes}
    → read_payload fin op (n, v, used) ≡ ok (complete frame m r)
    → read_payload fin op (n, v ++ w, used) ≡ ok (complete frame m (r ++ w))
unfolding read_payload
read_payload-append fin op n used v w h =
    let (rest, e, h0) = >>=-eq-ok (substr_from 4 v) _ h in
    let (le, _) = substr_from-eq-drop 4 v e in
    rw (substr_from-append 4 v w e, take-append_le 4 v w le)
      (ground (arith, length-append rest w, take-append_le n rest w, drop-append_le n rest w))

read_masked-append :
    (b1 : ℕ) (v w : Bytes) {frame : Frame} {m : ℕ} {r : Bytes}
    → read_masked v b1 ≡ ok (complete frame m r)
    → read_masked (v ++ w) b1 ≡ ok (complete frame m (r ++ w))
unfolding read_masked
read_masked-append b1 v w h =
    let (b0, e0, h0) = >>=-eq-ok (at v 0) _ h in
    let (u, e1, h1) = >>=-eq-ok (substr_from 2 v) _ h0 in
    let (sized, e2, h2) = >>=-eq-ok (read_length (b1 % 0x80) u) _ h1 in
    rw
      (
        at-append v w 0 e0,
        substr_from-append 2 v w e1,
        read_length-append (b1 % 0x80) u w {n = sized.0} {used = sized.2} {r = sized.1} e2,
      )
      (read_payload-append _ _ sized.0 sized.2 sized.1 w h2)

read_behind : Bytes → ℕ → Result Reading
read_behind bv b1 = if ltb b1 0x80 then ok unmasked else read_masked bv b1

read_frame_long : (v : Bytes) → 6 ≤ length v → read_frame v ≡ (at v 1 >>= λ b1. read_behind v b1)
unfolding read_frame read_behind
read_frame_long v h = rw (ge→ltb _ _ h)

read_frame_short : (v : Bytes) {x : Reading} → read_frame v ≡ ok x → x ≢ incomplete → 6 ≤ length v
unfolding read_frame
read_frame_short v h ne = ground arith

-- A complete frame is not read otherwise when more bytes follow.
pub read_frame-append :
    (v w : Bytes) {frame : Frame} {m : ℕ} {r : Bytes}
    → read_frame v ≡ ok (complete frame m r)
    → read_frame (v ++ w) ≡ ok (complete frame m (r ++ w))
unfolding read_behind
read_frame-append v w {frame} {m} {r} h =
    let enough = read_frame_short v h (λ e. cc) in
    let (b1, e1, h1) = >>=-eq-ok (at v 1) (read_behind v) (sym (read_frame_long v enough) ∙ h) in
    rw (read_frame_long (v ++ w) (omega (arith, length-append v w)), at-append v w 1 e1)
      (ground (arith, read_masked-append b1 v w {frame = frame} {m = m} {r = r}))

-- `r` is what stands behind the first `k` bytes of `v`.
abbrev pub Behind : ℕ → Bytes → Bytes → Type 0
Behind k v r = (k ≤ length v) × (r ≡ drop k v)

Behind-trans : (j k n : ℕ) (v u r : Bytes) → Behind j v u → Behind k u r → n ≡ j + k → Behind n v r
Behind-trans j k n v u r (l, e) (l', e') s =
    (omega (arith, ap length e, length-drop j v), e' ∙ rw (e, s) (sym (drop-add k j v)))

read_length16-Behind :
    (v : Bytes) {n used : ℕ} {r : Bytes}
    → read_length16 v ≡ ok (n, r, used)
    → (used ≡ 4) × Behind 2 v r
unfolding read_length16
read_length16-Behind v h =
    let (hi, e0, h0) = >>=-eq-ok (at v 0) _ h in
    let (lo, e1, h1) = >>=-eq-ok (at v 1) _ h0 in
    let (rest, e2, h2) = >>=-eq-ok (substr_from 2 v) _ h1 in
    ground (arith, substr_from-eq-drop 2 v e2)

read_length64-Behind :
    (v : Bytes) {n used : ℕ} {r : Bytes}
    → read_length64 v ≡ ok (n, r, used)
    → (used ≡ 10) × Behind 8 v r
unfolding read_length64
read_length64-Behind v h =
    let (m, e0, h0) = >>=-eq-ok (read_u64 8 0 0 v) _ h in
    let (rest, e1, h1) = >>=-eq-ok (substr_from 8 v) _ h0 in
    ground (arith, substr_from-eq-drop 8 v e1)

read_length-Behind :
    (len : ℕ) (v : Bytes) {n used : ℕ} {r : Bytes}
    → read_length len v ≡ ok (n, r, used)
    → (2 ≤ used) × Behind (used - 2) v r
unfolding read_length
read_length-Behind len v {n} {used} {r} h = elim (Bool-cases (len == 126)) [
  | inl short ↦
      let (e, b) = read_length16-Behind v {n = n} {used = used} {r = r} (ground arith) in
      rw e (omega arith, b)
  | inr long ↦ elim (Bool-cases (len == 127)) [
    | inl huge ↦
        let (e, b) = read_length64-Behind v {n = n} {used = used} {r = r} (ground arith) in
        rw e (omega arith, b)
    | inr plain ↦ ground arith
  ]
]

read_payload-Behind :
    (fin : Bool) (op : OpCode) (n used : ℕ) (v : Bytes) {frame : Frame} {m : ℕ} {r : Bytes}
    → read_payload fin op (n, v, used) ≡ ok (complete frame m r)
    → (m ≡ used + (4 + n)) × Behind (4 + n) v r
unfolding read_payload
read_payload-Behind fin op n used v {r} h =
    let (rest, e, h0) = >>=-eq-ok (substr_from 4 v) _ h in
    let (le, d) = substr_from-eq-drop 4 v e in
    (ground arith, Behind-trans 4 n (4 + n) v rest r (le, d) (ground arith) refl)

read_masked-Behind :
    (b1 : ℕ) (v : Bytes) {frame : Frame} {m : ℕ} {r : Bytes}
    → read_masked v b1 ≡ ok (complete frame m r)
    → (6 ≤ m) × Behind m v r
unfolding read_masked
read_masked-Behind b1 v {frame} {m} {r} h =
    let (b0, e0, h0) = >>=-eq-ok (at v 0) _ h in
    let (u, e1, h1) = >>=-eq-ok (substr_from 2 v) _ h0 in
    let (sized, e2, h2) = >>=-eq-ok (read_length (b1 % 0x80) u) _ h1 in
    let (two, b) =
      read_length-Behind (b1 % 0x80) u {n = sized.0} {used = sized.2} {r = sized.1} e2 in
    let (size, c) = read_payload-Behind _ _ sized.0 sized.2 sized.1 h2 in
    (
      omega arith,
      Behind-trans 2 (sized.2 - 2 + (4 + sized.0)) m v u r (substr_from-eq-drop 2 v e1)
          (Behind-trans (sized.2 - 2) (4 + sized.0) _ u sized.1 r b c refl) (omega arith),
    )

-- The bytes of a complete frame: its size is what separates the rest from the buffer.
pub read_frame-Behind :
    (v : Bytes) {frame : Frame} {m : ℕ} {r : Bytes}
    → read_frame v ≡ ok (complete frame m r)
    → (6 ≤ m) × Behind m v r
unfolding read_behind
read_frame-Behind v {frame} {m} {r} h =
    let enough = read_frame_short v h (λ e. cc) in
    let (b1, e1, h1) = >>=-eq-ok (at v 1) (read_behind v) (sym (read_frame_long v enough) ∙ h) in
    read_masked-Behind b1 v {frame = frame} (ground arith)
