-- ===== src/Tests/StaticCases.antt =====
-- The theorems on static files at a concrete file.
use cndl.Base.{
  ℤ, ◌≡◌, ◌⊎◌, refl, [], ◌∷◌, Bytes, codes, some, none, ok, take, drop, min, arith, str_eq,
  if◌then◌else◌,
}
use cndl.Request.Parse.{find_field}
use cndl.Response.Decimal.{decimal, digits}
use cndl.Response.Fields.{values}
use cndl.Response.Types.{Response, new_response}
use cndl.Static.Dates.{Calendar}
use cndl.Static.Files.{Stat, File, FileSystem, join_paths}
use cndl.Static.Range.{read_range}
use cndl.Static.Handler.{
  add_field, with_range, read_body, send_part, file_response, answer_file, serve,
}
use cndl.Static.Bounds.{read_limit, Holds, IsSlice, serve-IsSlice}
use cndl.Static.Answers.{Answers}
use cndl.Static.Short.{range_text, send_part-short}
use cndl.Tests.DispatcherCases.{post}

abbrev content : Bytes
content = codes "hello world"

abbrev stat : Stat
stat = record { size = 11; modified = ℤ.pos 1000 }

abbrev file : File
file = record {
  stat = some stat;
  pread = λ count offset. some (take (min count read_limit) (drop offset content));
}

abbrev files : FileSystem
files = record {
  open_read = λ path. if str_eq path (codes "/srv/a.txt") then some file else none;
  can_fopen = λ path. str_eq path (codes "/srv/a.txt");
}

abbrev calendar : Calendar ℤ
calendar = record {
  localtime = λ seconds. seconds;
  strftime = λ format tm. codes "Thu, 01 Jan 1970 00:16:40 UTC";
  strptime = λ format str tm. ℤ.pos 0;
  mktime = λ tm. tm;
  zero = ℤ.pos 0;
}

file-Holds : Holds file stat content
file-Holds = record { stat_known = refl; size = refl; reads = λ count offset. refl }

send_part-short_example :
    send_part file 11 new_response (range_text 0 4 ∷ [])
    ≡ ok
        (record (add_field
          (codes "Content-Range")
          (codes "bytes 0-3/11")
          (record new_response { status_code = 206 })) { message_body = some (codes "hell") })
unfolding decimal digits
send_part-short_example =
    send_part-short file stat content new_response 0 4 [] file-Holds (omega arith) (omega arith)
      (omega arith) (omega arith)

abbrev modified_response : Response
modified_response = record (file_response calendar (codes "a.txt") stat) {
  message_body = some content;
}

serve-IsSlice_example : (modified_response.message_body ≡ none) ⊎ IsSlice content modified_response
unfolding serve join_paths answer_file find_field send_part values read_range with_range read_body
serve-IsSlice_example =
    serve-IsSlice file stat content file-Holds calendar files (codes "/srv") post (codes "a.txt")
      refl refl
