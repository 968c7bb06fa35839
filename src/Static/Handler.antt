-- ===== src/Static/Handler.antt =====
-- `StaticFileHandler`.
use cndl.Base.{
  ℤ, less, ℕ, ◌+◌, ◌-◌, ◌%◌, ◌^◌, ◌==◌, Bool, not, List, [], ◌++◌, Bytes, codes, length, str_eq,
  if◌then◌else◌, Option, none, some, Result, ok, err, ◌>>=◌, error,
}
use cndl.Request.Types.{Request}
use cndl.Request.Parse.{find_field}
use cndl.Response.Decimal.{decimal}
use cndl.Response.Fields.{emplace, values}
use cndl.Response.Types.{Response, new_response, set_content_type_from_extension}
use cndl.Static.Dates.{Calendar, mkdatestr_at, parsedatestr}
use cndl.Static.Files.{Stat, File, FileSystem, join_paths, extension}
use cndl.Static.Range.{Range, read_range}

abbrev pub add_field : Bytes → Bytes → Response → Response
add_field name value r = record r { fields = emplace name value r.fields }

-- `fmt::format("bytes {}-{}/{}", start_offset, end_offset - 1, size)`, in `size_t`.
unfoldable pub content_range : Range → ℕ → Bytes
content_range range size =
    codes "bytes "
    ++ decimal range.start_offset
    ++ codes "-"
    ++ decimal ((range.end_offset + 2 ^ 64 - 1) % 2 ^ 64)
    ++ codes "/"
    ++ decimal size

-- The fields and the status of a part.
unfoldable pub with_range : Range → ℕ → Response → Response
with_range range size r =
    if range.is_part
    then add_field (codes "Content-Range") (content_range range size)
        (record r { status_code = 206 })
    else r

-- `pread` into the body: it has to fill it.
abbrev pub filled : ℕ → Option Bytes → Result Bytes
filled count none = err (error 500 [])
filled count (some bytes) = if length bytes == count then ok bytes else err (error 500 [])

unfoldable pub read_body : File → Range → Result Bytes
read_body file range =
    let count = range.end_offset - range.start_offset in
    filled count (file.pread count range.start_offset)

unfoldable pub send_part : File → ℕ → Response → List Bytes → Result Response
send_part file size response ranges = do
  range ← read_range size ranges
  body ← read_body file range
  ok (record (with_range range size response) { message_body = some body })

module _ {Tm : Type 0} (calendar : Calendar Tm) where
  -- The response before its status and its body.
  unfoldable pub file_response : Bytes → Stat → Response
  file_response resource stat = set_content_type_from_extension (extension resource) (
      add_field (codes "Accept-Ranges") (codes "bytes") (
        add_field (codes "last-modified") (mkdatestr_at calendar stat.modified)
          (add_field (codes "cache-control") (codes "max-age=3600, no-cache") new_response)))

  -- `req_time >= statbuf.st_mtim.tv_sec`
  abbrev pub is_fresh : ℤ → Option Bytes → Bool
  is_fresh modified none = Bool.false
  is_fresh modified (some date) = not (less (calendar.mktime (parsedatestr calendar date)) modified)

  unfoldable pub answer_file : Request → Bytes → File → Stat → Result Response
  answer_file request resource file stat =
      let response = file_response resource stat in
      if is_fresh stat.modified (find_field (codes "if-modified-since") request.header.fields)
      then ok (record response { status_code = 304 })
      else if str_eq request.header.method (codes "HEAD")
      then ok (add_field (codes "Content-Length") (decimal stat.size) response)
      else send_part file stat.size response (values (codes "range") request.header.fields)

  abbrev pub answer_stat : Request → Bytes → File → Option Stat → Result Response
  answer_stat request resource file none = err (error 500 [])
  answer_stat request resource file (some stat) = answer_file request resource file stat

  abbrev pub answer_open : Request → Bytes → Option File → Result Response
  answer_open request resource none = err (error 404 [])
  answer_open request resource (some file) = answer_stat request resource file file.stat

  module _ (files : FileSystem) (base_dir : Bytes) where
    -- `operator()`, which always returns a response.
    unfoldable pub serve : Request → Bytes → Result Response
    serve request resource =
        answer_open request resource (files.open_read (join_paths base_dir resource))

    unfoldable pub can_serve_resource : Bytes → Bool
    can_serve_resource resource = files.can_fopen (join_paths base_dir resource)
