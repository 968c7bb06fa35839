-- ===== src/Websocket/RoundTrip.antt =====
-- The code reads what a client sends by the specification, and a client reads what the code sends.
use cndl.Base.{
  ℕ, zero, suc, ◌+◌, ◌*◌, ◌/◌, ◌%◌, ◌^◌, ◌≤◌, ◌<◌, ◌≡◌, refl, sym, ap, ◌∙◌, inl, inr, Bool, true,
  false, [], ◌∷◌, ◌++◌, Bytes, AreBytes, length, get_or, ok, substr_from-eq-ok, arith,
  length-append, ge→ltb, ltb, leb, take-append_length, drop-append_length, append_assoc, Bool-cases,
  bit_xor-bit_xor,
}
use cndl.Websocket.Types.{OpCode, opcode_value, to_opcode}
use cndl.Websocket.Frame.{
  complete, read_u64, read_length16, read_length64, read_length, unmask, read_payload, read_masked,
  read_frame,
}
use cndl.Websocket.Wire.{
  network_order, mask, masked_length, Key, masked, first_byte, client_frame, IsNamed,
}

to_opcode-opcode_value : (op : OpCode) → IsNamed op → to_opcode (opcode_value op) ≡ op
unfolding to_opcode opcode_value
to_opcode-opcode_value (OpCode.reserved n) h = absurd h
to_opcode-opcode_value _ h = refl

pub opcode_value-lt : (op : OpCode) → IsNamed op → opcode_value op < 16
unfolding opcode_value
opcode_value-lt (OpCode.reserved n) h = absurd h
opcode_value-lt _ h = omega arith

abbrev pub IsKey : Key → Type 0
IsKey k = (k.a < 256) × (k.b < 256) × (k.c < 256) × (k.d < 256)

abbrev key_bytes : Key → Bytes
key_bytes k = k.a ∷ k.b ∷ k.c ∷ k.d ∷ []

key_byte-lt : (k : Key) (j : ℕ) → IsKey k → get_or (key_bytes k) j 0 < 256
key_byte-lt k zero h = omega arith
key_byte-lt k (suc zero) h = omega arith
key_byte-lt k (suc (suc zero)) h = omega arith
key_byte-lt k (suc (suc (suc zero))) h = omega arith
key_byte-lt k (suc (suc (suc (suc j)))) h = omega arith

-- The code counts through the key where the specification turns it.
module _ (k : Key) (ks : IsKey k) where
  abbrev key_at : ℕ → ℕ
  key_at i = get_or (key_bytes k) (i % 4) 0

  key_at_turn : (i : ℕ) → key_at (i + 1 + 3) ≡ key_at i
  key_at_turn i = ap (λ j. get_or (key_bytes k) j 0) {x = (i + 1 + 3) % 4} {y = i % 4} (omega arith)

  key_at_step : (i j l : ℕ) → i + j ≡ l → key_at (i + j) ≡ key_at l
  key_at_step i j l e = ap key_at e

  unmask-mask :
      (i a b c d : ℕ) (payload : Bytes)
      → AreBytes payload
      → key_at i ≡ a
      → key_at (i + 1) ≡ b
      → key_at (i + 2) ≡ c
      → key_at (i + 3) ≡ d
      → unmask (key_bytes k) i (mask a b c d payload) ≡ payload
  unfolding unmask
  unmask-mask i a b c d [] bs ea eb ec ed = refl
  unmask-mask i a b c d (x ∷ payload) bs ea eb ec ed = cc (
    bit_xor-bit_xor x a bs.0 (rw (← ea) (key_byte-lt k (i % 4) ks)),
    unmask-mask (i + 1) b c d a payload bs.1 eb (key_at_step (i + 1) 1 (i + 2) (omega arith) ∙ ec)
        (key_at_step (i + 1) 2 (i + 3) (omega arith) ∙ ed) (key_at_turn i ∙ ea),
  )

shift_in : (q : ℕ) → q < 2 ^ 64 → (q / 256 * 2 ^ 8 + q % 256) % 2 ^ 64 ≡ q
shift_in q h = omega arith

shift_in_first : (q : ℕ) → q < 256 → (0 * 2 ^ 8 + q % 256) % 2 ^ 64 ≡ q
shift_in_first q h = omega arith

shift_in_short : (q : ℕ) → q < 2 ^ 16 → q / 256 % 256 * 2 ^ 8 + q % 256 ≡ q
shift_in_short q h = omega arith

read_u64-network_order :
    (n : ℕ) (w : Bytes) → n < 2 ^ 64 → read_u64 8 0 0 (network_order 8 n ++ w) ≡ ok n
unfolding read_u64
read_u64-network_order n w h =
    let n1 = n / 256 in
    let n2 = n1 / 256 in
    let n3 = n2 / 256 in
    let n4 = n3 / 256 in
    let n5 = n4 / 256 in
    let n6 = n5 / 256 in
    let n7 = n6 / 256 in
    rw (
      shift_in_first n7 (omega arith),
      shift_in n6 (omega arith),
      shift_in n5 (omega arith),
      shift_in n4 (omega arith),
      shift_in n3 (omega arith),
      shift_in n2 (omega arith),
      shift_in n1 (omega arith),
      shift_in n h,
    )

pub first_byte-fin :
    (fin : Bool) (op : OpCode) → opcode_value op < 16 → leb 0x80 (first_byte fin op) ≡ fin
first_byte-fin fin op h = ground arith

pub first_byte-opcode :
    (fin : Bool) (op : OpCode) → opcode_value op < 16 → first_byte fin op % 0x10 ≡ opcode_value op
first_byte-opcode true op h = omega arith
first_byte-opcode false op h = omega arith

length-mask : (a b c d : ℕ) (p : Bytes) → length (mask a b c d p) ≡ length p
length-mask a b c d [] = refl
length-mask a b c d (x ∷ p) = ap suc (length-mask b c d a p)

module _ (k : Key) (p rest : Bytes) (ks : IsKey k) (ps : AreBytes p) where
  read_payload-masked :
      (fin : Bool) (op : OpCode) (used : ℕ)
      → read_payload fin op (length p, masked k p ++ rest, used)
        ≡ ok (complete (record { fin = fin; opcode = op; payload = p }) (used + 4 + length p) rest)
  unfolding read_payload
  read_payload-masked fin op used =
      let hidden = mask k.a k.b k.c k.d p in
      let size = length-mask k.a k.b k.c k.d p in
      rw
        (
          substr_from-eq-ok 4 (masked k p ++ rest) (omega arith),
          take-append_length (length p) hidden rest (sym size),
          drop-append_length (length p) hidden rest (sym size),
          unmask-mask k ks 0 k.a k.b k.c k.d p ps refl refl refl refl,
        )
        (ground (arith, length-append hidden rest, size))

  read_length-masked_length :
      length p < 2 ^ 64
      → (tail : Bytes) × (b1 : ℕ) × (masked_length (length p) ≡ b1 ∷ tail)
        × (128 ≤ b1)
        × (read_length (b1 % 0x80) (tail ++ (masked k p ++ rest))
            ≡ ok (length p, masked k p ++ rest, length tail + 2))
  unfolding read_length read_length16 read_length64 masked_length
  read_length-masked_length h = elim (Bool-cases (ltb (length p) 126)) [
    | inl short ↦ ([], 128 + length p, rw short, omega arith, ground arith)
    | inr long ↦ elim (Bool-cases (ltb (length p) (2 ^ 16))) [
      | inl medium ↦ (
        network_order 2 (length p),
        254,
        rw (long, medium),
        omega arith,
        rw
            (
              read_length16,
              substr_from-eq-ok 2 (network_order 2 (length p) ++ (masked k p ++ rest))
                  (omega arith),
            )
            (ground (arith, shift_in_short (length p))),
      )
      | inr large ↦ (
        network_order 8 (length p),
        255,
        rw (long, large),
        omega arith,
        rw (
          read_length64,
          read_u64-network_order (length p) (masked k p ++ rest) h,
          substr_from-eq-ok 8 (network_order 8 (length p) ++ (masked k p ++ rest)) (omega arith),
        ),
      )
    ]
  ]

  read_masked-client :
      (fin : Bool) (op : OpCode) (tail : Bytes) (b1 : ℕ)
      → IsNamed op
      → read_length (b1 % 0x80) (tail ++ (masked k p ++ rest))
        ≡ ok (length p, masked k p ++ rest, length tail + 2)
      → read_masked (first_byte fin op ∷ b1 ∷ (tail ++ (masked k p ++ rest))) b1
        ≡ ok (
            complete
              (record { fin = fin; opcode = op; payload = p })
              (length tail + 6 + length p)
              rest)
  unfolding read_masked
  read_masked-client fin op tail b1 named sized =
      let op_lt = opcode_value-lt op named in
      let fin_bit : leb 0x80 (first_byte fin op) ≡ fin = first_byte-fin fin op op_lt in
      let low : first_byte fin op % 0x10 ≡ opcode_value op = first_byte-opcode fin op op_lt in
      rw
        (
          substr_from-eq-ok 2 (first_byte fin op ∷ b1 ∷ (tail ++ (masked k p ++ rest)))
              (omega arith),
          sized,
          fin_bit,
          low,
          to_opcode-opcode_value op named,
          read_payload-masked fin op (length tail + 2),
        )
        (ground arith)

-- Every frame that a client forms by RFC 6455, for each of the three length forms and whatever
-- stands behind it, is read as its final bit, its opcode and its payload, with exactly its bytes
-- taken from the buffer.
pub read_frame-client_frame :
    (fin : Bool) (op : OpCode) (k : Key) (p rest : Bytes)
    → IsNamed op
    → IsKey k
    → AreBytes p
    → length p < 2 ^ 64
    → read_frame (client_frame fin op k p ++ rest)
      ≡ ok (
          complete
            (record { fin = fin; opcode = op; payload = p })
            (length (client_frame fin op k p))
            rest)
unfolding client_frame read_frame
read_frame-client_frame fin op k p rest named ks ps h =
    let (tail, b1, form, bit, sized) = read_length-masked_length k p rest ks ps h in
    let size = length-append tail (masked k p ++ rest) in
    let size' = length-append tail (masked k p) in
    let bv = first_byte fin op ∷ b1 ∷ (tail ++ (masked k p ++ rest)) in
    let total : length tail + 6 + length p ≡ suc (suc (length (tail ++ masked k p))) =
      omega (arith, length-mask k.a k.b k.c k.d p) in
    rw
      (
        form,
        append_assoc tail (masked k p) rest,
        ge→ltb (length bv) 6 (omega arith),
        ge→ltb b1 0x80 bit,
        ← total,
      )
      (read_masked-client k p rest ks ps fin op tail b1 named sized)
