-- ===== src/Static/Answers.antt =====
-- What a request without a range is answered with.
use cndl.Base.{◌≡◌, Bool, true, false, [], ◌∷◌, Bytes, codes, str_eq, length, none, some}
use cndl.Request.Types.{Request}
use cndl.Request.Parse.{find_field}
use cndl.Response.Decimal.{decimal}
use cndl.Response.Types.{Response}
use cndl.Response.Fields.{values}
use cndl.Static.Dates.{Calendar}
use cndl.Static.Files.{Stat, File, FileSystem}
use cndl.Static.Handler.{is_fresh}
use cndl.Static.Bounds.{Holds}

-- The answer with a file of these bytes: whether the client has it already, and whether it asks for
-- the head alone.
abbrev pub Answers : Bytes → Bool → Bool → Response → Type 0
Answers content true head r = (r.status_code ≡ 304) × (r.message_body ≡ none)
Answers content false true r =
    (r.status_code ≡ 200)
    × (r.message_body ≡ none)
    × (values (codes "Content-Length") r.fields ≡ decimal (length content) ∷ [])
Answers content false false r =
    (r.status_code ≡ 200)
    × (r.message_body ≡ some content)
    × (values (codes "Content-Length") r.fields ≡ [])

module _ (file : File) (stat : Stat) (content : Bytes) (h : Holds file stat content) where
  module _ {Tm : Type 0} (calendar : Calendar Tm) (files : FileSystem) (base_dir : Bytes)
      (request : Request) (resource : Bytes) where
    abbrev pub is_known : Bool
    is_known =
        is_fresh calendar stat.modified
          (find_field (codes "if-modified-since") request.header.fields)

    abbrev pub is_head : Bool
    is_head = str_eq request.header.method (codes "HEAD")
