-- ===== src/Request/Reference.antt =====
-- Unescaping, written down on its own: it reads one character at a time.
use cndl.Base.{
  ℕ, ◌≡◌, Bool, false, [], ◌∷◌, Bytes, ◌==◌, if◌then◌else◌, none, some, Result, ok, err, ◌>>=◌,
  undefined, arith,
}
use cndl.Request.Url.{bad_escape, hex_digit, second_digit, negated}

-- The value of the characters behind a percent sign.
abbrev pub escaped_value : ℕ → ℕ → Result ℕ
escaped_value a b = elim (hex_digit a) [
  | some high ↦ ok (second_digit high (hex_digit b))
  | none ↦ if a == b'-' then negated (hex_digit b) else err bad_escape
]

-- With one character only behind the percent sign: the second is read unless the first ends the
-- number.
abbrev pub escaped_last : ℕ → Result Bytes
escaped_last a = elim (hex_digit a) [
  | some high ↦ err undefined
  | none ↦ if a == b'-' then err undefined else err bad_escape
]

-- The text with each escape replaced, read from the left.
unfoldable pub unescape : Bytes → Result Bytes
unescape [] = ok []
unescape (c ∷ []) = if c == b'%' then err bad_escape else ok (c ∷ [])
unescape (c ∷ a ∷ []) =
    if c == b'%' then escaped_last a else if a == b'%' then err bad_escape else ok (c ∷ a ∷ [])
unescape (c ∷ a ∷ b ∷ rest) =
    let plain = (do text ← unescape (a ∷ b ∷ rest); ok (c ∷ text)) in
    let marked = (do v ← escaped_value a b; text ← unescape rest; ok (v ∷ text)) in
    if c == b'%' then marked else plain

abbrev pub mark_alone : Bytes → Bool
mark_alone (c ∷ []) = c == b'%'
mark_alone _ = false

abbrev pub reference : Bytes → Result Bytes
reference str = if mark_alone str then err undefined else unescape str

pub unescape-plain :
    (c : ℕ) (rest : Bytes)
    → (c == b'%') ≡ false
    → unescape (c ∷ rest) ≡ (unescape rest >>= λ t. ok (c ∷ t))
unfolding unescape
unescape-plain c [] h = rw h
unescape-plain c (a ∷ []) h = rw h (ground arith)
unescape-plain c (a ∷ b ∷ rest) h = rw h
