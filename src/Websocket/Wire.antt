-- ===== src/Websocket/Wire.antt =====
-- The wire format of RFC 6455, written down on its own: the frames that a client sends, and a
-- reader for the frames of a server.
use cndl.Base.{
  ℕ, zero, suc, ◌+◌, ◌*◌, ◌/◌, ◌%◌, ◌^◌, bit_xor, Bool, [], ◌∷◌, ◌++◌, Bytes, length, take, drop,
  leb, ltb, ◌==◌, if◌then◌else◌, Option, none, some,
}
use cndl.Websocket.Types.{OpCode, opcode_value}

-- `n` in `k` bytes, the highest first.
abbrev pub network_order : ℕ → ℕ → Bytes
network_order zero n = []
network_order (suc k) n = network_order k (n / 256) ++ (n % 256 ∷ [])

-- The key is used again and again.
abbrev pub mask : ℕ → ℕ → ℕ → ℕ → Bytes → Bytes
mask a b c d [] = []
mask a b c d (x ∷ xs) = bit_xor x a ∷ mask b c d a xs

unfoldable pub masked_length : ℕ → Bytes
masked_length n =
    if ltb n 126
    then (128 + n) ∷ []
    else if ltb n (2 ^ 16)
    then (128 + 126) ∷ network_order 2 n
    else (128 + 127) ∷ network_order 8 n

pub record Key : Type 0 where
  pub a : ℕ
  pub b : ℕ
  pub c : ℕ
  pub d : ℕ

abbrev pub masked : Key → Bytes → Bytes
masked key payload = key.a ∷ key.b ∷ key.c ∷ key.d ∷ mask key.a key.b key.c key.d payload

abbrev pub first_byte : Bool → OpCode → ℕ
first_byte fin op = opcode_value op + (if fin then 128 else 0)

unfoldable pub client_frame : Bool → OpCode → Key → Bytes → Bytes
client_frame fin op key payload =
    first_byte fin op ∷ (masked_length (length payload) ++ masked key payload)

-- The six opcodes that the specification names.
abbrev pub IsNamed : OpCode → Type 0
IsNamed (OpCode.reserved n) = ⊥
IsNamed _ = Unit

-- A server's frame as a client reads it: the final bit, the opcode, the payload, and what follows.
pub record ServerFrame : Type 0 where
  pub fin : Bool
  pub opcode : ℕ
  pub payload : Bytes
  pub rest : Bytes

abbrev pub number : Bytes → ℕ → ℕ
number [] acc = acc
number (b ∷ bs) acc = number bs (acc * 256 + b)

abbrev pub cut : ℕ → ℕ → Bytes → Option ServerFrame
cut b0 n body =
    if ltb (length body) n
    then none
    else some
        (record { fin = leb 128 b0; opcode = b0 % 16; payload = take n body; rest = drop n body })

abbrev pub read_server_frame : Bytes → Option ServerFrame
read_server_frame [] = none
read_server_frame (b0 ∷ []) = none
read_server_frame (b0 ∷ b1 ∷ body) =
    if ltb b1 126
    then cut b0 b1 body
    else if b1 == 126
    then cut b0 (number (take 2 body) 0) (drop 2 body)
    else if b1 == 127
    then cut b0 (number (take 8 body) 0) (drop 8 body)
    else none
