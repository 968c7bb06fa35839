-- ===== src/Static/Dates.antt =====
-- DateStrHelper.cpp: dates as texts. The calendar is the C library's.
use cndl.Base.{ℤ, Bytes, codes}

-- `localtime_r`, `strftime` into a buffer that is large enough, `strptime`, `mktime`, and `tm{}`.
pub record Calendar (Tm : Type 0) : Type 0 where
  pub localtime : ℤ → Tm
  pub strftime : Bytes → Tm → Bytes
  pub strptime : Bytes → Bytes → Tm → Tm
  pub mktime : Tm → ℤ
  pub zero : Tm

abbrev pub date_format_string : Bytes
date_format_string = codes "%a, %d %b %Y %H:%M:%S %Z"

module _ {Tm : Type 0} (calendar : Calendar Tm) where
  -- `mkdatestr(tm)`
  unfoldable pub mkdatestr : Tm → Bytes
  mkdatestr tm = calendar.strftime date_format_string tm

  -- `mkdatestr(ts)`, of the seconds of the `timespec`.
  unfoldable pub mkdatestr_at : ℤ → Bytes
  mkdatestr_at seconds = mkdatestr (calendar.localtime seconds)

  unfoldable pub parsedatestr : Bytes → Tm
  parsedatestr str = calendar.strptime date_format_string str calendar.zero
