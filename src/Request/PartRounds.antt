-- ===== src/Request/PartRounds.antt =====
-- The loop over the parts of a multipart body ends before its rounds are used up.
use cndl.Base.{
  found_fits, ℕ, zero, suc, ◌+◌, ◌-◌, ◌^◌, ◌≤◌, ◌<◌, ◌≡◌, inl, inr, List, [], Bytes, codes, length,
  length-drop, take, drop, ltb, ltb→ge, str_eq, Option, none, some, substr, find_text, index_of,
  arith, Bool-cases, Option-cases,
}
use cndl.Request.Fields.{FieldVal, FieldMap, extract_field_vals, crlf, parse_fields}
use cndl.Request.Types.{BodyArg}
use cndl.Request.Parse.{find_field}
use cndl.Request.Multipart.{
  BodyArgMap, name_of, disposition_of, named, read_part, read_between, multipart_loop,
  read_multipart_body,
}
use cndl.Request.Rounds.{
  Ends, Ends->>=, Ends-if, substr-Ends, extract_field_vals-Ends, parse_fields-Ends,
}

disposition_of-Ends : (fields : FieldMap) → Ends (disposition_of fields)
disposition_of-Ends fields = elim (Option-cases (find_field (codes "content-disposition") fields)) [
  | inl nothing ↦ rw (nothing, disposition_of) tt
  | inr (value, there) ↦ rw (there, disposition_of) tt
]

named-Ends : (vals : List FieldVal) (ba : BodyArg) → Ends (named vals ba)
named-Ends vals ba = elim (Option-cases (name_of vals)) [
  | inl nothing ↦ rw (nothing, named) tt
  | inr (name, there) ↦ rw (there, named) tt
]

read_part-Ends : (content : Bytes) → Ends (read_part content)
unfolding read_part
read_part-Ends content = elim (Option-cases (index_of (codes "\r\n\r\n") content)) [
  | inl nothing ↦ rw (nothing, read_part) tt
  | inr (header_end, there) ↦
      rw (there, read_part)
        (Ends->>= (parse_fields (take (header_end + 2) content)) _ (parse_fields-Ends _) (λ fields.
          Ends->>= (disposition_of fields) _ (disposition_of-Ends fields) (λ disposition.
            Ends->>= (extract_field_vals disposition (codes ";,")) _ (extract_field_vals-Ends _ _)
              (λ vals.
                Ends->>= (substr (header_end + 4) none content) _ (substr-Ends _ _ _)
                  (λ body_content. named-Ends vals _)))))
]

-- A boundary that is found four characters or more behind the start lies inside the body.
found_early :
    (boundary : Bytes) (start : ℕ) (body : Bytes) {i : ℕ}
    → find_text boundary start body ≡ some i
    → start + 4 ≤ i
    → i ≤ length body
unfolding find_text
found_early boundary start body {i} h far =
    elim (Option-cases (index_of boundary (drop start body))) [
      | inl nothing ↦ absurd (ground (arith, nothing))
      | inr (j, found) ↦
          let e : start + j ≡ i = ground (arith, found) in
          let fits = found_fits boundary (drop start body) found in
          omega (arith, length-drop start body)
    ]

-- The rounds are enough from here.
abbrev Room : ℕ → Bytes → Option ℕ → Type 0
Room rounds body none = 0 < rounds
Room rounds body (some place) = length body - place < rounds

multipart_loop-Ends :
    (rounds : ℕ) (body boundary : Bytes) (found : Option ℕ) (body_args : BodyArgMap)
    → Room rounds body found
    → Ends (multipart_loop rounds body boundary found body_args)
unfolding multipart_loop read_between
multipart_loop-Ends zero body boundary none body_args room = absurd (omega arith)
multipart_loop-Ends zero body boundary (some place) body_args room = absurd (omega arith)
multipart_loop-Ends (suc rounds) body boundary none body_args room = tt
multipart_loop-Ends (suc rounds) body boundary (some place) body_args room =
    let start = place + length boundary in
    let next = find_text boundary (start + 2) body in
    Ends->>= (substr start (some 2) body) _ (substr-Ends start (some 2) body) (λ mark.
      Ends-if (str_eq mark (codes "--")) _ _ tt (
        Ends-if (str_eq mark crlf) _ _
          (elim (Option-cases next) [
            | inl nothing ↦ rw nothing tt
            | inr (body_end, there) ↦ elim (Bool-cases (ltb body_end (start + 2 + 4))) [
              | inl near ↦ rw (there, near) tt
              | inr far ↦
                  let inside = found_early boundary (start + 2) body there (ltb→ge _ _ far) in
                  let reached = ltb→ge body_end (start + 2 + 4) far in
                  rw (there, far)
                    (Ends->>= (substr (body_end - 4) (some 4) body) _ (substr-Ends _ _ _) (λ term.
                      Ends-if (str_eq term (codes "\r\n--")) _ _
                        (Ends->>= (substr (start + 2) (some (body_end - (start + 2) - 4)) body) _
                          (substr-Ends _ _ _)
                          (λ content.
                            Ends->>= (read_part content) _ (read_part-Ends content) (λ entry.
                              multipart_loop-Ends rounds body boundary (some body_end) _
                                (omega (arith, inside, reached, room)))))
                        tt))
            ]
          ])
          tt))

enough : (body : Bytes) (found : Option ℕ) → Room (length body + 1) body found
enough body none = omega arith
enough body (some place) = omega arith

pub multipart_body-Ends : (body boundary : Bytes) → Ends (read_multipart_body body boundary)
unfolding read_multipart_body
multipart_body-Ends body boundary =
    let found = find_text boundary 0 body in
    multipart_loop-Ends (length body + 1) body boundary found [] (enough body found)

-- On every body of fewer than 2^32 - 1 bytes, whose positions fit the `unsigned int`s of the code,
-- and with every boundary, the empty one too, `read_multipart_body` comes to an end by itself.
pub read_multipart_body-Ends :
    (body boundary : Bytes) → length body < 2 ^ 32 - 1 → Ends (read_multipart_body body boundary)
read_multipart_body-Ends body boundary fits = multipart_body-Ends body boundary
