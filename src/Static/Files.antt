-- ===== src/Static/Files.antt =====
-- The file system that StaticFileHandler.cpp calls, and paths.
use cndl.Base.{
  ℤ, ℕ, ◌+◌, ◌==◌, Bool, true, false, ◌||◌, [], ◌∷◌, ◌++◌, Bytes, codes, drop, str_eq,
  if◌then◌else◌, Option, none, some, last_index_where, is_char,
}

-- What `fstat` tells: the size, and the seconds of the last modification.
pub record Stat : Type 0 where
  pub size : ℕ
  pub modified : ℤ

-- An open file: `fstat`, and the bytes that `pread` gives for a count and an offset, each `none` when
-- the call fails.
pub record File : Type 0 where
  pub stat : Option Stat
  pub pread : ℕ → ℕ → Option Bytes

-- `open` for reading, and whether `fopen` succeeds.
pub record FileSystem : Type 0 where
  pub open_read : Bytes → Option File
  pub can_fopen : Bytes → Bool

abbrev pub is_absolute : Bytes → Bool
is_absolute [] = false
is_absolute (c ∷ path) = c == b'/'

abbrev pub ends_in_slash : Bytes → Bool
ends_in_slash [] = false
ends_in_slash (c ∷ []) = c == b'/'
ends_in_slash (c ∷ (d ∷ path)) = ends_in_slash (d ∷ path)

abbrev pub needs_no_slash : Bytes → Bool
needs_no_slash [] = true
needs_no_slash (c ∷ path) = ends_in_slash (c ∷ path)

-- `operator/` of paths: an absolute path on the right takes the place of the other.
unfoldable pub join_paths : Bytes → Bytes → Bytes
join_paths base resource =
    if is_absolute resource
    then resource
    else if needs_no_slash base
    then base ++ resource
    else base ++ codes "/" ++ resource

abbrev pub behind_slash : Bytes → Option ℕ → Bytes
behind_slash path none = path
behind_slash path (some i) = drop (i + 1) path

-- `path.extension()`: from the last dot of the file name on, unless it is the first character.
abbrev pub from_dot : Bytes → Option ℕ → Bytes
from_dot name none = []
from_dot name (some i) = if i == 0 || str_eq name (codes "..") then [] else drop i name

unfoldable pub extension : Bytes → Bytes
extension path =
    let name = behind_slash path (last_index_where (is_char b'/') path) in
    from_dot name (last_index_where (is_char b'.') name)
