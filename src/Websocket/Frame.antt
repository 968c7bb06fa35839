-- ===== src/Websocket/Frame.antt =====
-- The head of the loop in `Websocket::onDataReceived`: one frame is read from the buffer.
use cndl.Base.{
  ℕ, zero, suc, ◌+◌, ◌*◌, ◌%◌, ◌^◌, bit_xor, Bool, [], ◌∷◌, Bytes, length, take, drop, get_or, leb,
  ltb, ◌==◌, if◌then◌else◌, Result, ok, ◌>>=◌, at, substr_from,
}
use cndl.Websocket.Types.{OpCode, to_opcode}

-- A frame with its payload unmasked.
pub record Frame : Type 0 where
  pub fin : Bool
  pub opcode : OpCode
  pub payload : Bytes

-- What the buffer holds: less than a frame, a frame that is not masked, or a frame with the number
-- of bytes it takes and the bytes behind it.
pub data Reading : Type 0 where
  incomplete unmasked : Reading
  complete : Frame → ℕ → Bytes → Reading

-- `payload_len = payload_len << 8 | bv[i]` for `n` rounds from `i`, in 64 bits. The low byte of a
-- shifted number is 0, so that `|` with a byte adds.
unfoldable pub read_u64 : ℕ → ℕ → ℕ → Bytes → Result ℕ
read_u64 zero i payload_len bv = ok payload_len
read_u64 (suc n) i payload_len bv = do
  b ← at bv i
  read_u64 n (i + 1) ((payload_len * 2 ^ 8 + b) % 2 ^ 64) bv

-- The two extended lengths: the length, the view behind it, and the bytes taken so far.
unfoldable pub read_length16 : Bytes → Result (ℕ × Bytes × ℕ)
read_length16 bv = do
  hi ← at bv 0
  lo ← at bv 1
  rest ← substr_from 2 bv
  ok (hi * 2 ^ 8 + lo, rest, 4)

unfoldable pub read_length64 : Bytes → Result (ℕ × Bytes × ℕ)
read_length64 bv = do n ← read_u64 8 0 0 bv; rest ← substr_from 8 bv; ok (n, rest, 10)

unfoldable pub read_length : ℕ → Bytes → Result (ℕ × Bytes × ℕ)
read_length len bv =
    if len == 126
    then read_length16 bv
    else if len == 127
    then read_length64 bv
    else ok (len, bv, 2)

-- `unmasked[i] = payload[i] ^ mask_key[i % 4]`, from `i` on.
unfoldable pub unmask : Bytes → ℕ → Bytes → Bytes
unmask mask_key i [] = []
unmask mask_key i (b ∷ payload) =
    bit_xor b (get_or mask_key (i % 4) 0) ∷ unmask mask_key (i + 1) payload

-- The payload, once its length is known: the mask key, and the payload if it is there in full.
unfoldable pub read_payload : Bool → OpCode → ℕ × Bytes × ℕ → Result Reading
read_payload fin opcode (payload_len, bv, cur_consumed) = do
  behind ← substr_from 4 bv
  let payload = unmask (take 4 bv) 0 (take payload_len behind)
  if ltb (length behind) payload_len
      then ok incomplete
      else ok (
          complete (record { fin = fin; opcode = opcode; payload = payload })
            (cur_consumed + 4 + payload_len) (drop payload_len behind))

-- The rest of the header, of a masked frame.
unfoldable pub read_masked : Bytes → ℕ → Result Reading
read_masked bv b1 = do
  b0 ← at bv 0
  behind ← substr_from 2 bv
  sized ← read_length (b1 % 0x80) behind
  read_payload (leb 0x80 b0) (to_opcode (b0 % 0x10)) sized

unfoldable pub read_frame : Bytes → Result Reading
read_frame bv =
    if ltb (length bv) 6
    then ok incomplete
    else (do b1 ← at bv 1; if ltb b1 0x80 then ok unmasked else read_masked bv b1)
