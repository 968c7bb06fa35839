-- ===== src/Static/Range.antt =====
-- The range of a file that a request asks for (StaticFileHandler.cpp).
use cndl.Base.{
  ℕ, ◌+◌, ◌^◌, min, ◌==◌, Bool, false, not, ◌&&◌, ◌||◌, List, [], ◌∷◌, Bytes, codes, take, drop,
  ltb, starts_with, index_where, if◌then◌else◌, Option, none, some, Result, ok, err, ◌>>=◌, error,
  out_of_range,
}
use cndl.Response.Decimal.{read_decimal}
use cndl.Dispatcher.Extract.{are_digits}

-- The two groups of `bytes=(\d+)-(\d*)`, for a text that matches as a whole.
abbrev pub groups_at : Bytes → Option ℕ → Option (Bytes × Bytes)
groups_at text none = none
groups_at text (some i) =
    let first = take i text in
    let last = drop (i + 1) text in
    if ltb 0 i && are_digits first && are_digits last then some (first, last) else none

unfoldable pub match_range : Bytes → Option (Bytes × Bytes)
match_range val =
    let text = drop 6 val in
    if starts_with (codes "bytes=") val
    then groups_at text (index_where (λ c. c == b'-') text)
    else none

-- `std::stoi` on digits.
unfoldable pub stoi : Bytes → Result ℕ
stoi text = let n = read_decimal text in if ltb n (2 ^ 31) then ok n else err out_of_range

-- The offsets, and whether a part alone is sent (206).
pub record Range : Type 0 where
  pub start_offset : ℕ
  pub end_offset : ℕ
  pub is_part : Bool

abbrev pub whole_file : ℕ → Range
whole_file size = record { start_offset = 0; end_offset = size; is_part = false }

abbrev pub end_of : ℕ → Bytes → Result ℕ
end_of size [] = ok size
end_of size (c ∷ text) = do n ← stoi (c ∷ text); ok (min size n)

abbrev pub range_between : ℕ → ℕ → ℕ → Result Range
range_between size start_offset end_offset =
    if ltb end_offset start_offset
    then err (error 400 [])
    else ok (record {
      start_offset = start_offset;
      end_offset = end_offset;
      is_part = not (start_offset == 0) || not (end_offset == size);
    })

unfoldable pub range_of : ℕ → Bytes × Bytes → Result Range
range_of size (first, last) = do
  n ← stoi first
  end_offset ← end_of size last
  range_between size (min size n) end_offset

-- The loop over the fields of the name `range`: the first that matches decides.
abbrev pub read_match : ℕ → Option (Bytes × Bytes) → Result Range → Result Range
read_match size none later = later
read_match size (some groups) later = range_of size groups

unfoldable pub read_range : ℕ → List Bytes → Result Range
read_range size [] = ok (whole_file size)
read_range size (val ∷ vals) = read_match size (match_range val) (read_range size vals)
