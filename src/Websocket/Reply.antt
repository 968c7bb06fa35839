-- ===== src/Websocket/Reply.antt =====
-- What a client reads of the frames that the code sends.
use cndl.Base.{
  ltb, ltb→lt, ltb→ge, ◌⊎◌, false, ℕ, ◌+◌, ◌*◌, ◌/◌, ◌%◌, ◌^◌, ◌≤◌, ◌<◌, ◌≡◌, refl, ◌∙◌, inl, inr,
  Bool, true, List, [], ◌∷◌, ◌++◌, Bytes, length, ok, err, arith, length-append, leb, if◌then◌else◌,
  take-append_length, drop-append_length, Bool-cases, Option, none, some, invalid_argument, ge→ltb,
  lt→ltb, tests,
}
use cndl.Websocket.Types.{
  OpCode, opcode_value, CloseCode, normal, close_code_value, Message, message_bytes, AfterSent,
  closes, Event, on_close, write, remove_timers, Websocket,
}
use cndl.Websocket.Send.{big_endian, length_field, serialize, send, ping, close, close_payload}
use cndl.Websocket.Wire.{first_byte, IsNamed, ServerFrame, number, cut, read_server_frame}
use cndl.Websocket.RoundTrip.{opcode_value-lt, first_byte-fin, first_byte-opcode}

number-big_endian : (n : ℕ) → n < 2 ^ 64 → number (big_endian 8 n) 0 ≡ n
unfolding big_endian
number-big_endian n h = omega arith

cut-append :
    (b0 : ℕ) (m rest : Bytes)
    → cut b0 (length m) (m ++ rest)
      ≡ some (record { fin = leb 128 b0; opcode = b0 % 16; payload = m; rest = rest })
cut-append b0 m rest = rw (
  take-append_length (length m) m rest refl,
  drop-append_length (length m) m rest refl,
  ge→ltb (length (m ++ rest)) (length m) (omega (arith, length-append m rest)),
)

number_short : (n : ℕ) → n < 2 ^ 16 → number ((n / 2 ^ 8) % 256 ∷ n % 256 ∷ []) 0 ≡ n
number_short n h = omega arith

abbrev pub expected : OpCode → Bool → Bytes → Bytes → ServerFrame
expected op fin m rest = record { fin = fin; opcode = opcode_value op; payload = m; rest = rest }

module _ (op : OpCode) (fin : Bool) (m rest : Bytes) (named : IsNamed op) where
  cut-first_byte : cut (first_byte fin op) (length m) (m ++ rest) ≡ some (expected op fin m rest)
  cut-first_byte =
      cut-append (first_byte fin op) m rest
      ∙ rw (
        first_byte-fin fin op (opcode_value-lt op named),
        first_byte-opcode fin op (opcode_value-lt op named),
      )

  -- A frame that the code sends, with any final bit and any opcode that the specification names, is
  -- read by a client as that bit, that opcode and the same payload, whatever follows it.
  pub read_server_frame-serialize :
      length m < 2 ^ 64
      → read_server_frame (serialize m op fin ++ rest) ≡ some (expected op fin m rest)
  unfolding serialize length_field
  read_server_frame-serialize h = elim (Bool-cases (leb (length m) 125)) [
    | inl short ↦ rw (short, lt→ltb (length m) 126 (omega tests)) cut-first_byte
    | inr long ↦ elim (Bool-cases (leb (length m) 0xffff)) [
      | inl medium ↦ rw (long, medium, number_short (length m) (omega tests)) cut-first_byte
      | inr large ↦ rw (long, large, big_endian, number-big_endian (length m) h) cut-first_byte
    ]
  ]

close_code-bytes :
    (code : CloseCode)
    → (close_code_value code / 2 ^ 8) % 256 * 256 + close_code_value code % 256
      ≡ close_code_value code
unfolding close_code_value
close_code-bytes normal = refl
close_code-bytes _ = refl

abbrev pub timers_off : Websocket → List Event
timers_off ws = if ws.auto_ping then remove_timers ∷ [] else []

long-cases : (n : ℕ) → ((125 < n) × (ltb 125 n ≡ true)) ⊎ ((n ≤ 125) × (ltb 125 n ≡ false))
long-cases n = elim (Bool-cases (ltb 125 n)) [
  | inl long ↦ inl (ltb→lt 125 n long, long)
  | inr short ↦ inr (ltb→ge 125 n short, short)
]

-- The payload of a control frame has at most 125 bytes (RFC 6455, 5.5): a client that reads a longer
-- one fails the connection.
abbrev pub if_control : Option ServerFrame → Option ServerFrame
if_control none = none
if_control (some f) = if ltb 125 (length f.payload) then none else some f

abbrev pub read_control_frame : Bytes → Option ServerFrame
read_control_frame bytes = if_control (read_server_frame bytes)

abbrev close_frame : Bytes → Bytes → ServerFrame
close_frame payload rest = record { fin = true; opcode = 8; payload = payload; rest = rest }

read-long :
    (hi lo : ℕ) (m rest bytes : Bytes)
    → 123 < length m
    → read_server_frame bytes ≡ some (close_frame (hi ∷ lo ∷ m) rest)
    → read_control_frame bytes ≡ none
read-long hi lo m rest bytes h read =
    rw (read, lt→ltb 125 (length (hi ∷ lo ∷ m)) (omega arith)) refl

read-short :
    (hi lo : ℕ) (m rest bytes : Bytes)
    → length m ≤ 123
    → read_server_frame bytes ≡ some (close_frame (hi ∷ lo ∷ m) rest)
    → read_control_frame bytes ≡ some (close_frame (hi ∷ lo ∷ m) rest)
read-short hi lo m rest bytes h read =
    rw (read, ge→ltb 125 (length (hi ∷ lo ∷ m)) (omega arith)) refl

-- The three sizes of a reason.
abbrev pub ReasonFits : Bytes → ℕ → ℕ → Bytes → Bytes → Type 0
ReasonFits reason hi lo bytes rest =
    ((length reason ≤ 123)
      × (read_control_frame bytes
          ≡ some (record { fin = true; opcode = 8; payload = hi ∷ lo ∷ reason; rest = rest })))
    ⊎ ((123 < length reason) × (read_control_frame bytes ≡ none))

reason-fits :
    (reason : Bytes) (hi lo : ℕ) (bytes rest : Bytes)
    → read_server_frame bytes ≡ some (close_frame (hi ∷ lo ∷ reason) rest)
    → ReasonFits reason hi lo bytes rest
reason-fits reason hi lo bytes rest read = elim (Bool-cases (ltb 123 (length reason))) [
  | inl long ↦
      let h = ltb→lt 123 (length reason) long in inr (h, read-long hi lo reason rest bytes h read)
  | inr short ↦
      let h = ltb→ge 123 (length reason) short in inl (h, read-short hi lo reason rest bytes h read)
]

-- `close` with a reason of more than 125 bytes throws `std::invalid_argument`. With any other it
-- stops the timers of the auto ping, tells the handler, and writes one frame after which the
-- connection is closed. With a reason of at most 123 bytes a client reads that frame as a final close
-- frame whose payload is the code in network order and the reason. With 124 or 125 bytes, which
-- `close` lets pass, the payload is longer than that of a control frame may be, and a client refuses
-- the frame.
pub close_lem :
    (ws : Websocket) (code : CloseCode) (reason : Message) (rest : Bytes)
    → ((125 < length (message_bytes reason)) × (close ws code reason ≡ err invalid_argument))
      ⊎ ((length (message_bytes reason) ≤ 125)
          × (frame : Bytes) × (hi lo : ℕ) × (close ws code reason
              ≡ ok (timers_off ws ++ (on_close ∷ write frame closes ∷ [])))
          × ReasonFits (message_bytes reason) hi lo (frame ++ rest) rest
          × (hi * 256 + lo ≡ close_code_value code))
unfolding close send close_payload
close_lem ws code reason rest = elim (long-cases (length (message_bytes reason))) [
  | inl (h, long) ↦ inl (h, rw long)
  | inr (h, short) ↦ inr (
    h,
    serialize (close_payload code (message_bytes reason)) OpCode.close true,
    (close_code_value code / 2 ^ 8) % 256,
    close_code_value code % 256,
    rw short,
    reason-fits (message_bytes reason) ((close_code_value code / 2 ^ 8) % 256)
        (close_code_value code % 256)
        (serialize (close_payload code (message_bytes reason)) OpCode.close true ++ rest) rest
        (unfold opcode_value in
          read_server_frame-serialize OpCode.close true (close_payload code (message_bytes reason))
            rest tt (omega arith)),
    close_code-bytes code,
  )
]

-- `ping` throws `std::invalid_argument` for a message of more than 125 bytes, and writes one frame
-- for any other, which a client reads as a final ping frame with the same payload.
pub ping_lem :
    (message : Message) (after : AfterSent) (rest : Bytes)
    → ((125 < length (message_bytes message)) × (ping message after ≡ err invalid_argument))
      ⊎ ((length (message_bytes message) ≤ 125)
          × (frame : Bytes) × (ping message after ≡ ok (write frame after))
          × (read_server_frame (frame ++ rest)
              ≡ some (record {
                fin = true;
                opcode = 9;
                payload = message_bytes message;
                rest = rest;
              })))
unfolding ping send
ping_lem message after rest = elim (long-cases (length (message_bytes message))) [
  | inl (h, long) ↦ inl (h, rw long)
  | inr (h, short) ↦ inr (
    h,
    serialize (message_bytes message) OpCode.ping true,
    rw short,
    unfold opcode_value in
        read_server_frame-serialize OpCode.ping true (message_bytes message) rest tt (omega arith),
  )
]
