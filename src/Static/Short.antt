-- ===== src/Static/Short.antt =====
-- The range that a client asks for, and the one that it gets.
use cndl.Base.{
  ℕ, ◌+◌, ◌-◌, ◌≤◌, ◌<◌, ◌^◌, ◌%◌, ◌≡◌, refl, sym, ap, ◌∙◌, ◌==◌, Bool, true, false, not, ◌||◌,
  List, [], ◌∷◌, ◌++◌, Bytes, codes, length, min, All, take, take-append_length, drop, drop-add,
  drop-append_length, lt→ltb, ge→ltb, index_where, index_where-append, some, ok, ◌>>=◌, arith,
}
use cndl.Response.Types.{Response}
use cndl.Response.Decimal.{
  decimal, read_decimal-decimal, IsDigit, decimal-AreDigits, filled-decimal,
}
use cndl.Dispatcher.Extract.{are_digits-AreDigits}
use cndl.Static.Files.{Stat, File}
use cndl.Static.Range.{
  Range, stoi, groups_at, end_of, range_between, match_range, range_of, read_range,
}
use cndl.Static.Handler.{add_field, content_range, with_range, send_part}
use cndl.Static.Bounds.{read_limit, InFile, Holds, read_body-Holds}

-- The value of a `Range` field for the bytes from the first to the last one.
abbrev pub range_text : ℕ → ℕ → Bytes
range_text first last = codes "bytes=" ++ (decimal first ++ (b'-' ∷ decimal last))

no_dash : (ds : Bytes) → All IsDigit ds → All (λ c. (c == b'-') ≡ false) ds
no_dash [] h = tt
no_dash (d ∷ ds) h = let k = h.0 in (ground arith, no_dash ds h.1)

groups_at-digits :
    (a b : Bytes)
    → 0 < length a
    → All IsDigit a
    → All IsDigit b
    → groups_at (a ++ (b'-' ∷ b)) (some (length a)) ≡ some (a, b)
groups_at-digits a b filled one two = rw (
  lt→ltb 0 (length a) filled,
  take-append_length (length a) a (b'-' ∷ b) refl,
  drop-add 1 (length a) (a ++ (b'-' ∷ b)),
  drop-append_length (length a) a (b'-' ∷ b) refl,
  are_digits-AreDigits a one,
  are_digits-AreDigits b two,
)

match_range-range_text :
    (first last : ℕ) → match_range (range_text first last) ≡ some (decimal first, decimal last)
unfolding match_range
match_range-range_text first last =
    let a = decimal first in
    let b = decimal last in
    let plus_zero : length a + 0 ≡ length a = omega arith in
    let found : index_where (λ c. c == b'-') (a ++ (b'-' ∷ b)) ≡ some (length a) =
      index_where-append (λ c. c == b'-') a (b'-' ∷ b) (no_dash a (decimal-AreDigits first)) refl
      ∙ ap some plus_zero in
    rw found (
      groups_at-digits a b (filled-decimal first) (decimal-AreDigits first)
        (decimal-AreDigits last))

stoi-decimal : (n : ℕ) → n < 2 ^ 31 → stoi (decimal n) ≡ ok n
unfolding stoi
stoi-decimal n h = rw (read_decimal-decimal n, lt→ltb n (2 ^ 31) h)

end_of-filled :
    (size : ℕ) (text : Bytes)
    → 0 < length text
    → end_of size text ≡ (stoi text >>= λ n. ok (min size n))
end_of-filled size [] h = absurd (omega arith)
end_of-filled size (c ∷ text) h = refl

abbrev pub span : ℕ → ℕ → Bool → Range
span first last is_part = record { start_offset = first; end_offset = last; is_part = is_part }

or_true : (b : Bool) → (b || true) ≡ true
or_true true = refl
or_true false = refl

range_between-part :
    (size first last : ℕ)
    → first ≤ last
    → last < size
    → range_between size first last ≡ ok (span first last true)
range_between-part size first last ordered inside =
    let other : (last == size) ≡ false = ground arith in
    rw (ge→ltb last first ordered, other)
      (ap (λ b. ok (span first last b)) (or_true (not (first == 0))))

read_range-range_text :
    (size first last : ℕ) (vals : List Bytes)
    → first ≤ last
    → last < size
    → size < 2 ^ 31
    → read_range size (range_text first last ∷ vals) ≡ ok (span first last true)
unfolding read_range range_of
read_range-range_text size first last vals ordered inside small =
    let lower : min size first ≡ first = omega arith in
    let upper : min size last ≡ last = omega arith in
    rw
      (
        match_range-range_text first last,
        stoi-decimal first (omega arith),
        lower,
        end_of-filled size (decimal last) (filled-decimal last),
        stoi-decimal last (omega arith),
        upper,
      )
      (range_between-part size first last ordered inside)

-- A `Range` field asks for the bytes from the first to the last one, the last one included and not
-- the first of the file. For a file that has them all and that one call of `pread` can read whole, the
-- response is a part (206) that ends before the last one: it is a byte short, and its `Content-Range`
-- names the byte before the last one as the last of the part.
pub send_part-short :
    (file : File) (stat : Stat) (content : Bytes) (response : Response) (first last : ℕ)
    (vals : List Bytes)
    → Holds file stat content
    → first ≤ last
    → 0 < last
    → last < length content
    → length content ≤ read_limit
    → send_part file stat.size response (range_text first last ∷ vals)
      ≡ ok
          (record (add_field
            (codes "Content-Range")
            (codes "bytes "
              ++ decimal first
              ++ codes "-"
              ++ decimal (last - 1)
              ++ codes "/"
              ++ decimal (length content))
            (record response { status_code = 206 })) {
              message_body = some (take (last - first) (drop first content));
            })
unfolding send_part with_range content_range
send_part-short file stat content response first last vals h ordered filled inside small =
    let range = span first last true in
    let before : last < stat.size = omega (arith, h.size) in
    let other : (last == stat.size) ≡ false = ground arith in
    let within : InFile stat.size range = record {
      ordered = ordered;
      inside = omega arith;
      part = rw other (sym (or_true (not (first == 0))));
    } in
    let before_last : (last + 2 ^ 64 - 1) % 2 ^ 64 ≡ last - 1 = omega arith in
    rw (
      read_range-range_text stat.size first last vals ordered (omega (arith, h.size))
          (omega (arith, h.size)),
      read_body-Holds file stat content h range within (omega arith),
      before_last,
      h.size,
    )
