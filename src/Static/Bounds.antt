-- ===== src/Static/Bounds.antt =====
-- What is sent of a file.
use cndl.Base.{
  ℕ, ◌-◌, ◌≤◌, ◌≡◌, refl, sym, ap, ◌∙◌, ◌⊎◌, inl, inr, min, ◌==◌, Bool, true, false, not, ◌||◌,
  List, [], ◌∷◌, Bytes, codes, str_eq, length, take, drop, length-take, length-drop, ltb, ==_iff,
  ltb→ge, Bool-cases, Option-cases, none, some, Result, ok, err, >>=-eq-ok, arith, Exception,
}
use cndl.Request.Types.{Request}
use cndl.Request.Parse.{find_field}
use cndl.Response.Types.{Response, set_content_type_from_extension}
use cndl.Response.Fields.{values}
use cndl.Static.Dates.{Calendar}
use cndl.Static.Files.{Stat, File, FileSystem, join_paths}
use cndl.Static.Range.{Range, stoi, end_of, range_between, match_range, range_of, read_range}
use cndl.Static.Handler.{
  with_range, filled, read_body, send_part, file_response, is_fresh, answer_file, answer_stat,
  serve,
}

-- The offsets lie in the file in their order, and a part is what is not the whole.
pub record InFile (size : ℕ) (range : Range) : Type 0 where
  pub ordered : range.start_offset ≤ range.end_offset
  pub inside : range.end_offset ≤ size
  pub part : range.is_part ≡ (not (range.start_offset == 0) || not (range.end_offset == size))

from_ok : {A : Type 0} → A → Result A → A
from_ok a (ok b) = b
from_ok a (err e) = a

err-ne-ok : {A : Type 0} {a : A} (e : Exception) → err e ≡ ok a → ⊥
err-ne-ok e h = cc

ok_injective : {A : Type 0} {a b : A} → ok a ≡ ok b → a ≡ b
unfolding from_ok
ok_injective {A} {a} h = ap (λ m. from_ok a m) h

range_between-InFile :
    (size start_offset end_offset : ℕ) {range : Range}
    → end_offset ≤ size
    → range_between size start_offset end_offset ≡ ok range
    → InFile size range
range_between-InFile size start_offset end_offset {range} inside h =
    elim (Bool-cases (ltb end_offset start_offset)) [
      | inl over ↦ absurd (err-ne-ok _ (rw over at h))
      | inr fits ↦
          let ordered = ltb→ge end_offset start_offset fits in
          rw (sym (ok_injective (rw fits at h)))
            (record { ordered = ordered; inside = inside; part = refl })
    ]

end_of-inside : (size : ℕ) (text : Bytes) {n : ℕ} → end_of size text ≡ ok n → n ≤ size
end_of-inside size [] h = let e = ok_injective h in omega arith
end_of-inside size (c ∷ text) h =
    let (n, number, same) = >>=-eq-ok (stoi (c ∷ text)) (λ m. ok (min size m)) h in
    let e = ok_injective same in omega arith

range_of-InFile :
    (size : ℕ) (groups : Bytes × Bytes) {range : Range}
    → range_of size groups ≡ ok range
    → InFile size range
unfolding range_of
range_of-InFile size (first, last) h =
    let (n, number, inner) = >>=-eq-ok (stoi first) _ h in
    let (stop, bounded, made) = >>=-eq-ok (end_of size last) _ inner in
    range_between-InFile size (min size n) stop (end_of-inside size last bounded) made

read_range-InFile :
    (size : ℕ) (vals : List Bytes) {range : Range}
    → read_range size vals ≡ ok range
    → InFile size range
unfolding read_range
read_range-InFile size [] h =
    rw (sym (ok_injective h))
      (record { ordered = omega arith; inside = omega arith; part = ground arith })
read_range-InFile size (val ∷ vals) h = elim (Option-cases (match_range val)) [
  | inl nothing ↦ read_range-InFile size vals (rw nothing at h)
  | inr (groups, found) ↦ range_of-InFile size groups (rw found at h)
]

-- The most bytes that one call of `pread` gives on Linux (0x7ffff000).
abbrev pub read_limit : ℕ
read_limit = 2147479552

-- What is known of a regular file that holds these bytes and does not change.
pub record Holds (file : File) (stat : Stat) (content : Bytes) : Type 0 where
  pub stat_known : file.stat ≡ some stat
  pub size : stat.size ≡ length content
  pub reads :
      (count offset : ℕ)
      → file.pread count offset ≡ some (take (min count read_limit) (drop offset content))

-- A response with a part of the bytes, or with all of them.
pub record IsSlice (content : Bytes) (r : Response) : Type 0 where
  pub start : ℕ
  pub stop : ℕ
  pub ordered : start ≤ stop
  pub inside : stop ≤ length content
  pub body : r.message_body ≡ some (take (stop - start) (drop start content))
  pub status :
      ((r.status_code ≡ 200) × (start ≡ 0) × (stop ≡ length content)) ⊎ (r.status_code ≡ 206)

filled-eq-ok :
    (count : ℕ) (bytes : Bytes) {body : Bytes}
    → filled count (some bytes) ≡ ok body
    → (length bytes ≡ count) × (bytes ≡ body)
filled-eq-ok count bytes h = elim (Bool-cases (length bytes == count)) [
  | inl full ↦ ((==_iff (length bytes) count).0 full, ok_injective (rw full at h))
  | inr other ↦ absurd (err-ne-ok _ (rw other at h))
]

filled-eq :
    (count : ℕ) (bytes : Bytes) → length bytes ≡ count → filled count (some bytes) ≡ ok bytes
filled-eq count bytes h = ground arith

both_hold : (a b : Bool) → false ≡ (not a || not b) → (a ≡ true) × (b ≡ true)
both_hold true true h = (refl, refl)
both_hold true false h = absurd cc
both_hold false b h = absurd cc

with_range-status :
    (range : Range) (size : ℕ) (r : Response)
    → InFile size range
    → r.status_code ≡ 200
    → (((with_range range size r).status_code ≡ 200)
        × (range.start_offset ≡ 0)
        × (range.end_offset ≡ size))
      ⊎ ((with_range range size r).status_code ≡ 206)
unfolding with_range
with_range-status range size r f plain = elim (Bool-cases range.is_part) [
  | inl part ↦ inr (rw part refl)
  | inr whole ↦
      let (from, upto) =
        both_hold (range.start_offset == 0) (range.end_offset == size) (sym whole ∙ f.part) in
      inl (
        rw whole plain,
        (==_iff range.start_offset 0).0 from,
        (==_iff range.end_offset size).0 upto,
      )
]

whole_or_part :
    {code start stop size total : ℕ}
    → ((code ≡ 200) × (start ≡ 0) × (stop ≡ size)) ⊎ (code ≡ 206)
    → size ≡ total
    → ((code ≡ 200) × (start ≡ 0) × (stop ≡ total)) ⊎ (code ≡ 206)
whole_or_part (inl (code, start, stop)) e = inl (code, start, stop ∙ e)
whole_or_part (inr part) e = inr part

module _ (file : File) (stat : Stat) (content : Bytes) (h : Holds file stat content) where
  pub read_body-Holds :
      (range : Range)
      → InFile stat.size range
      → range.end_offset - range.start_offset ≤ read_limit
      → read_body file range
        ≡ ok (take (range.end_offset - range.start_offset) (drop range.start_offset content))
  unfolding read_body
  read_body-Holds range r few =
      let count = range.end_offset - range.start_offset in
      let size = length-take count (drop range.start_offset content) in
      let left = length-drop range.start_offset content in
      let all : min count read_limit ≡ count = omega arith in
      rw (h.reads count range.start_offset, all)
        (filled-eq count _ (omega (arith, h.size, r.ordered, r.inside)))

  read_body-eq-ok :
      (range : Range) {body : Bytes}
      → read_body file range ≡ ok body
      → take (range.end_offset - range.start_offset) (drop range.start_offset content) ≡ body
  unfolding read_body
  read_body-eq-ok range read =
      let count = range.end_offset - range.start_offset in
      let from = drop range.start_offset content in
      let (full, same) =
        filled-eq-ok count (take (min count read_limit) from)
          (rw (h.reads count range.start_offset) at read) in
      let size = length-take (min count read_limit) from in
      let all : count ≡ min count read_limit = omega arith in ap (λ n. take n from) all ∙ same

  send_part-IsSlice :
      (response : Response) (ranges : List Bytes) {r : Response}
      → response.status_code ≡ 200
      → send_part file stat.size response ranges ≡ ok r
      → IsSlice content r
  unfolding send_part
  send_part-IsSlice response ranges plain sent =
      let (range, found, inner) = >>=-eq-ok (read_range stat.size ranges) _ sent in
      let f = read_range-InFile stat.size ranges found in
      let (body, read, whole) = >>=-eq-ok (read_body file range) _ inner in
      rw (sym (ok_injective whole)) (record {
        start = range.start_offset;
        stop = range.end_offset;
        ordered = f.ordered;
        inside = omega (arith, f.inside, h.size);
        body = ap some (sym (read_body-eq-ok range read));
        status = whole_or_part (with_range-status range stat.size response f plain) h.size;
      })

  module _ {Tm : Type 0} (calendar : Calendar Tm) where
    answer_file-IsSlice :
        (request : Request) (resource : Bytes) {r : Response}
        → answer_file calendar request resource file stat ≡ ok r
        → (r.message_body ≡ none) ⊎ IsSlice content r
    unfolding answer_file file_response set_content_type_from_extension
    answer_file-IsSlice request resource answered =
        let fresh =
          is_fresh calendar stat.modified
            (find_field (codes "if-modified-since") request.header.fields) in
        elim (Bool-cases fresh) [
          | inl unchanged ↦
              inl (ap (λ x. x.message_body) (sym (ok_injective (rw unchanged at answered))))
          | inr changed ↦ elim (Bool-cases (str_eq request.header.method (codes "HEAD"))) [
            | inl head ↦
                inl (ap (λ x. x.message_body) (sym (ok_injective (rw (changed, head) at answered))))
            | inr body ↦ inr (
                send_part-IsSlice (file_response calendar resource stat)
                  (values (codes "range") request.header.fields) refl
                  (rw (changed, body) at answered))
          ]
        ]

    -- A regular file that does not change, whatever range is asked for: a response that is sent has no
    -- body, or its body is the bytes of the file between two offsets that lie in the file in their order;
    -- the status is 200 only for the whole file, and 206 otherwise.
    pub serve-IsSlice :
        (files : FileSystem) (base_dir : Bytes) (request : Request) (resource : Bytes)
        {r : Response}
        → files.open_read (join_paths base_dir resource) ≡ some file
        → serve calendar files base_dir request resource ≡ ok r
        → (r.message_body ≡ none) ⊎ IsSlice content r
    unfolding serve
    serve-IsSlice files base_dir request resource opened answered =
        answer_file-IsSlice request resource (
          sym (ap (answer_stat calendar request resource file) h.stat_known)
          ∙ (rw opened at answered))
