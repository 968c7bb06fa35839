-- ===== src/Static/Paths.antt =====
-- Which file is opened.
use cndl.Base.{◌≡◌, true, Bytes}
use cndl.Request.Types.{Request}
use cndl.Static.Dates.{Calendar}
use cndl.Static.Files.{FileSystem, is_absolute, join_paths}
use cndl.Static.Handler.{serve}

-- A resource that is an absolute path is served from wherever it points to: the directory that the
-- handler was made for is of no account.
serve-absolute :
    {Tm : Type 0} (calendar : Calendar Tm) (files : FileSystem) (base_dir other : Bytes)
    (request : Request) (resource : Bytes)
    → is_absolute resource ≡ true
    → serve calendar files base_dir request resource ≡ serve calendar files other request resource
unfolding serve join_paths
serve-absolute calendar files base_dir other request resource h = rw h
