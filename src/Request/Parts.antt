-- ===== src/Request/Parts.antt =====
-- A multipart body of several parts is read part by part.
use cndl.Base.{
  index_of-append, ℕ, zero, suc, ◌+◌, ◌-◌, ◌≤◌, ◌<◌, ◌≡◌, refl, sym, ap, ◌∙◌, List, [], ◌∷◌, ◌++◌,
  append_assoc, append-nil, Bytes, codes, length, length-append, length-drop, drop, drop-add,
  drop-append_length, take-append_length, All, ge→ltb, some, Result, ok, err, ◌>>=◌, substr,
  find_text, index_of, arith,
}
use cndl.Request.Fields.{crlf}
use cndl.Request.Types.{BodyArg}
use cndl.Request.Multipart.{
  BodyArgMap, read_part, read_between, multipart_loop, read_multipart_body,
}

abbrev pub end_mark : Bytes
end_mark = codes "\r\n--"

-- The parts with their boundaries, and what stands behind the last one.
abbrev pub written_parts : Bytes → List Bytes → Bytes → Bytes
written_parts boundary [] epilogue = boundary ++ (codes "--" ++ epilogue)
written_parts boundary (content ∷ contents) epilogue =
    boundary ++ (crlf ++ (content ++ (end_mark ++ written_parts boundary contents epilogue)))

-- The boundary stands behind the part and its end, and not before.
abbrev pub IsPart : Bytes → Bytes → Type 0
IsPart boundary content =
    index_of boundary (content ++ (end_mark ++ boundary)) ≡ some (length content + 4)

-- The parts read one after the other.
abbrev pub read_parts : List Bytes → Result BodyArgMap
read_parts [] = ok []
read_parts (content ∷ contents) = do
  entry ← read_part content
  entries ← read_parts contents
  ok (entry ∷ entries)

abbrev behind_boundary : Bytes → List Bytes → Bytes → Bytes
behind_boundary boundary [] epilogue = codes "--" ++ epilogue
behind_boundary boundary (content ∷ contents) epilogue =
    crlf ++ (content ++ (end_mark ++ written_parts boundary contents epilogue))

boundary_first :
    (boundary : Bytes) (contents : List Bytes) (epilogue : Bytes)
    → written_parts boundary contents epilogue
      ≡ boundary ++ behind_boundary boundary contents epilogue
boundary_first boundary [] epilogue = refl
boundary_first boundary (content ∷ contents) epilogue = refl

next_boundary :
    (boundary content : Bytes) (contents : List Bytes) (epilogue : Bytes)
    → IsPart boundary content
    → index_of boundary (content ++ (end_mark ++ written_parts boundary contents epilogue))
      ≡ some (length content + 4)
next_boundary boundary content contents epilogue h =
    let tail = behind_boundary boundary contents epilogue in
    ap (index_of boundary) (
      ap (λ t. content ++ (end_mark ++ t)) (boundary_first boundary contents epilogue)
      ∙ sym (append_assoc content (end_mark ++ boundary) tail))
    ∙ index_of-append boundary (content ++ (end_mark ++ boundary)) tail h

-- What stands at a place is cut out there.
substr_front :
    (place : ℕ) (v a b : Bytes)
    → drop place v ≡ a ++ b
    → 0 < length a + length b
    → substr place (some (length a)) v ≡ ok a
unfolding substr
substr_front place v a b h filled =
    let size = ap length h ∙ length-append a b in
    let rest = length-drop place v in
    rw (ge→ltb (length v) place (omega arith), h, take-append_length (length a) a b refl)

same_next :
    {A B : Type 0} (m : Result A) (f g : A → Result B)
    → ((a : A) → f a ≡ g a)
    → (m >>= f) ≡ (m >>= g)
same_next (ok a) f g h = h a
same_next (err e) f g h = refl

collect :
    (m : Result (Bytes × BodyArg)) (r : Result BodyArgMap) (args : BodyArgMap)
    → (m >>= λ entry. (r >>= λ entries. ok ((args ++ (entry ∷ [])) ++ entries))) ≡ (
        (m >>= λ entry. (r >>= λ entries. ok (entry ∷ entries))) >>= λ entries.
        ok (args ++ entries))
collect (ok entry) (ok entries) args = ap ok (append_assoc args (entry ∷ []) entries)
collect (ok entry) (err e) args = refl
collect (err e) r args = refl

module _ (boundary body epilogue : Bytes) where
  parts_end :
      (place : ℕ) (contents : List Bytes)
      → drop place body ≡ written_parts boundary contents epilogue
      → drop (place + length boundary) body ≡ behind_boundary boundary contents epilogue
  parts_end place contents at_place =
      drop-add (length boundary) place body
      ∙ ap (drop (length boundary)) (at_place ∙ boundary_first boundary contents epilogue)
      ∙ drop-append_length (length boundary) boundary (behind_boundary boundary contents epilogue)
          refl

  find_next :
      (start : ℕ) (content : Bytes) (contents : List Bytes)
      → IsPart boundary content
      → drop start body ≡ content ++ (end_mark ++ written_parts boundary contents epilogue)
      → find_text boundary start body ≡ some (start + (length content + 4))
  unfolding find_text
  find_next start content contents free at_content =
      rw (at_content, next_boundary boundary content contents epilogue free)

  sizes :
      (start n : ℕ)
      → (start + (n + 4) - 4 ≡ start + n)
        × (start + (n + 4) - start - 4 ≡ n)
        × (start + (n + 4) ≡ start + n + 4)
  sizes start n = (omega arith, omega arith, omega arith)

  multipart_loop-parts :
      (contents : List Bytes) (rounds place : ℕ) (body_args : BodyArgMap)
      → length contents < rounds
      → All (IsPart boundary) contents
      → drop place body ≡ written_parts boundary contents epilogue
      → multipart_loop rounds body boundary (some place) body_args
        ≡ (read_parts contents >>= λ entries. ok (body_args ++ entries))
  unfolding multipart_loop read_between
  multipart_loop-parts contents zero place body_args h free at_place = absurd (omega arith)
  multipart_loop-parts [] (suc rounds) place body_args h free at_place = rw (
    substr_front (place + length boundary) body (codes "--") epilogue (parts_end place [] at_place)
        (omega arith),
    append-nil body_args,
  )
  multipart_loop-parts (content ∷ contents) (suc rounds) place body_args h free at_place =
      let start = place + length boundary in
      let after = written_parts boundary contents epilogue in
      let tail = content ++ (end_mark ++ after) in
      let at_content : drop (start + 2) body ≡ tail =
        drop-add 2 start body ∙ ap (drop 2) (parts_end place (content ∷ contents) at_place) in
      let body_end = start + 2 + (length content + 4) in
      let found = find_next (start + 2) content contents free.0 at_content in
      let (before, count, behind) = sizes (start + 2) (length content) in
      let at_end : drop (start + 2 + length content) body ≡ end_mark ++ after =
        drop-add (length content) (start + 2) body
        ∙ ap (drop (length content)) at_content
        ∙ drop-append_length (length content) content (end_mark ++ after) refl in
      let at_next : drop body_end body ≡ after =
        ap (λ n. drop n body) behind
        ∙ drop-add 4 (start + 2 + length content) body
        ∙ ap (drop 4) at_end in
      rw
        (
          substr_front start body crlf tail (parts_end place (content ∷ contents) at_place)
              (omega arith),
          found,
          ge→ltb body_end (start + 2 + 4) (omega arith),
          before,
          substr_front (start + 2 + length content) body end_mark after at_end (omega arith),
          count,
          substr_front (start + 2) body content (end_mark ++ after) at_content (omega arith),
        )
        (same_next (read_part content) _ _ (λ entry.
            multipart_loop-parts contents rounds body_end (body_args ++ (entry ∷ [])) (omega arith)
              free.1 at_next)
          ∙ collect (read_part content) (read_parts contents) body_args)

length-written_parts :
    (boundary epilogue : Bytes) (contents : List Bytes)
    → length contents ≤ length (written_parts boundary contents epilogue)
length-written_parts boundary epilogue [] = omega arith
length-written_parts boundary epilogue (content ∷ contents) =
    let after = written_parts boundary contents epilogue in
    let rest = length-written_parts boundary epilogue contents in
    let outer = length-append boundary (crlf ++ (content ++ (end_mark ++ after))) in
    let inner = length-append content (end_mark ++ after) in omega arith

all_entries : (m : Result BodyArgMap) → (m >>= λ entries. ok entries) ≡ m
all_entries (ok entries) = refl
all_entries (err e) = refl

-- A multipart body, in which the boundary is found first behind the preamble and occurs in no part:
-- `read_multipart_body` reads each part in its order, stops at the closing boundary whatever stands
-- behind it, and throws what the first part throws that cannot be read.
pub read_multipart_body-written :
    (boundary preamble epilogue : Bytes) (contents : List Bytes)
    → index_of boundary (preamble ++ written_parts boundary contents epilogue)
      ≡ some (length preamble)
    → All (IsPart boundary) contents
    → read_multipart_body (preamble ++ written_parts boundary contents epilogue) boundary
      ≡ read_parts contents
unfolding read_multipart_body find_text
read_multipart_body-written boundary preamble epilogue contents first free =
    let parts = written_parts boundary contents epilogue in
    let body = preamble ++ parts in
    let size = length-append preamble parts in
    let many = length-written_parts boundary epilogue contents in
    let here : 0 + length preamble ≡ length preamble = omega arith in
    rw (first, here)
      (multipart_loop-parts boundary body epilogue contents (length body + 1) (length preamble) []
          (omega arith) free (drop-append_length (length preamble) preamble parts refl)
        ∙ all_entries (read_parts contents))
