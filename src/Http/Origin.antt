-- ===== src/Http/Origin.antt =====
-- Where a request comes from that `onDataReceived` hands on.
use cndl.Base.{
  ℕ, ◌+◌, ◌≡◌, refl, sym, ap, ◌∙◌, ◌⊎◌, inl, inr, Bool, true, false, Bool-cases, List, [], ◌∷◌,
  Bytes, codes, starts_with, take, drop, drop-add, ltb, length, Option, none, some, Result, ok, err,
  Exception, >>=-eq-ok, if◌then◌else◌, index_of, substr_from,
}
use cndl.Request.Fields.{FieldVal, word, kv_pair, extract_field_vals}
use cndl.Request.Types.{Header, Request, BodyArg}
use cndl.Request.Parse.{parse_header}
use cndl.Request.Multipart.{read_multipart_body}
use cndl.Http.Types.{Surroundings, Progress}
use cndl.Http.Protocol.{
  boundary_of, read_parts, with_parts, with_content_type, with_body_args, con_upgrade, prepare,
  read_header, behind_header, cut_header, cut_header_at, read_header_if, read_message, go_on,
}
use cndl.Http.Next.{substr_from-cases, Result-cases}
use cndl.Http.Head.{crlfcrlf}

-- The header was known before the call, or it was read from a part of the bytes received.
abbrev pub Came : Option Header → Bytes → Header → Type 0
Came member received header =
    (member ≡ some header)
    ⊎ ((start size : ℕ) × (parse_header (take size (drop start received)) ≡ ok header))

-- The header is such a one, but for the arguments of the body, and the body is the bytes received
-- that stand behind some place.
pub record Origin (member : Option Header) (received : Bytes) (request : Request) : Type 0 where
  pub header : Header
  pub came : Came member received header
  pub start : ℕ
  pub body : request.message_body ≡ take header.content_length (drop start received)
  pub body_args : List (Bytes × BodyArg)
  pub same : request.header ≡ record header { body_args = body_args }

-- A header that is given changes nothing but the arguments of the body.
abbrev Keeps : Header → Result Header → Type 0
Keeps header m =
    (h : Header)
    → m ≡ ok h
    → (body_args : List (Bytes × BodyArg)) × (h ≡ record header { body_args = body_args })

from_ok : {A : Type 0} → A → Result A → A
from_ok a (ok b) = b
from_ok a (err e) = a

ok_injective : {A : Type 0} {a b : A} → ok a ≡ ok b → a ≡ b
unfolding from_ok
ok_injective {A} {a} h = ap (λ m. from_ok a m) h

err-ne-ok : {A : Type 0} {a : A} (e : Exception) → err e ≡ ok a → ⊥
err-ne-ok e h = cc

Keeps-err : (header : Header) (e : Exception) → Keeps header (err e)
Keeps-err header e h same = absurd (err-ne-ok e same)

Keeps-ok : (header : Header) → Keeps header (ok header)
Keeps-ok header h same = (header.body_args, sym (ok_injective same))

Keeps-if :
    (header : Header) (b : Bool) (m n : Result Header)
    → Keeps header m
    → Keeps header n
    → Keeps header (if b then m else n)
Keeps-if header true m n h k = h
Keeps-if header false m n h k = k

Keeps-read_parts :
    (header : Header) (message : Bytes) (boundary : Option Bytes)
    → Keeps header (read_parts header message boundary)
Keeps-read_parts header message none = Keeps-err header _
Keeps-read_parts header message (some boundary) = λ h same.
    let (args, read, made) = >>=-eq-ok (read_multipart_body message boundary) _ same in
    (args, sym (ok_injective made))

Keeps-with_parts :
    (header : Header) (message : Bytes) (vals : List FieldVal)
    → Keeps header (with_parts header message vals)
unfolding with_parts
Keeps-with_parts header message [] = Keeps-err header _
Keeps-with_parts header message (kv_pair key value ∷ vals) = Keeps-ok header
Keeps-with_parts header message (word kind ∷ []) =
    Keeps-if header (starts_with (codes "multipart/") kind) _ _ (Keeps-err header _)
      (Keeps-ok header)
Keeps-with_parts header message (word kind ∷ (val ∷ vals)) =
    Keeps-if header (starts_with (codes "multipart/") kind) _ _
      (Keeps-read_parts header message (boundary_of (val ∷ vals))) (Keeps-ok header)

Keeps-with_content_type :
    (header : Header) (message : Bytes) (enctype : Option Bytes)
    → Keeps header (with_content_type header message enctype)
Keeps-with_content_type header message none = Keeps-ok header
Keeps-with_content_type header message (some enctype) = λ h same.
    let (vals, read, made) = >>=-eq-ok (extract_field_vals enctype (codes ";,")) _ same in
    Keeps-with_parts header message vals h made

pub prepare-Origin :
    {member : Option Header} {received : Bytes} (header : Header) (start : ℕ) {request : Request}
    {upgrade : Bool}
    → Came member received header
    → prepare header (take header.content_length (drop start received)) ≡ ok (request, upgrade)
    → Origin member received request
unfolding prepare with_body_args
prepare-Origin {member} {received} header start came prepared =
    let message = take header.content_length (drop start received) in
    let (processed, read, inner) = >>=-eq-ok (with_body_args header message) _ prepared in
    let (up, known, made) = >>=-eq-ok (con_upgrade processed) _ inner in
    let (args, same) = Keeps-with_content_type header message _ processed read in
    let pair = ok_injective made in
    record {
      header = header;
      came = came;
      start = start;
      body = ap (λ p. p.0.message_body) (sym pair);
      body_args = args;
      same = ap (λ p. p.0.header) (sym pair) ∙ same;
    }

-- The bytes that are left are the end of those received, and a header that is known came from there.
pub record Within (member : Option Header) (received : Bytes) (s : Progress) : Type 0 where
  pub start : ℕ
  pub rest : s.received ≡ drop start received
  pub known :
      (s.header ≡ none)
      ⊎ ((header : Header) × (s.header ≡ some header) × Came member received header)

module _ {member : Option Header} {received : Bytes} where
  behind_header-Within :
      (s : Progress) (header : Header) (n : ℕ)
      → Within member received s
      → Came member received header
      → Within member received (behind_header s header n (substr_from n s.received)).0
  behind_header-Within s header n w came = elim (substr_from-cases n s.received) [
    | inl (fits, cut) ↦ rw cut (record {
      start = w.start + n;
      rest = ap (drop n) w.rest ∙ sym (drop-add n w.start received);
      known = inr (header, refl, came);
    })
    | inr over ↦
        rw over (record { start = w.start; rest = w.rest; known = inr (header, refl, came) })
  ]

  cut_header-Within :
      (s : Progress) (n size : ℕ)
      → Within member received s
      → Within member received (cut_header s n (parse_header (take size s.received))).0
  cut_header-Within s n size w = elim (Result-cases (parse_header (take size s.received))) [
    | inl (header, parsed) ↦
        let part = ap (λ v. parse_header (take size v)) (sym w.rest) ∙ parsed in
        rw parsed (behind_header-Within s header n w (inr (w.start, size, part)))
    | inr (e, thrown) ↦ rw thrown w
  ]

  cut_header_at-Within :
      (s : Progress) (found : Option ℕ)
      → Within member received s
      → Within member received (cut_header_at s found).0
  cut_header_at-Within s none w = w
  cut_header_at-Within s (some idx) w = cut_header-Within s (s.consumed + (idx + 4)) (idx + 2) w

  read_header_if-Within :
      (s : Progress) (header : Option Header)
      → Within member received s
      → Within member received (read_header_if s header).0
  read_header_if-Within s none w = cut_header_at-Within s (index_of crlfcrlf s.received) w
  read_header_if-Within s (some header) w = w

  pub read_header-Within :
      (s : Progress) → Within member received s → Within member received (read_header s).0
  unfolding read_header
  read_header-Within s w = read_header_if-Within s s.header w

  -- Behind the header, and behind a request that is taken out.
  pub read_message-Within :
      {Pattern : Type 0} (env : Surroundings Pattern) (s : Progress) (header : Option Header)
      → Within member received s
      → Within member received (read_message env s header).progress
  read_message-Within env s none w = w
  read_message-Within env s (some header) w =
      elim (Bool-cases (ltb (length s.received) header.content_length)) [
        | inl short ↦ rw short w
        | inr complete ↦ rw complete (record {
          start = w.start + header.content_length;
          rest =
              ap (drop header.content_length) w.rest
              ∙ sym (drop-add header.content_length w.start received);
          known = inl refl;
        })
      ]

  pub go_on-Within :
      {Pattern : Type 0} (env : Surroundings Pattern) (read : Progress × Option Exception)
      → Within member received read.0
      → Within member received (go_on env read).progress
  go_on-Within env (s, some e) w = w
  go_on-Within env (s, none) w = read_message-Within env s s.header w
