-- ===== src/Publisher/Rotation.antt =====
-- common/log_file.cxx: the file name of a LogFile, and when it changes. The broken-down local
-- time that strftime and sprintf print is an argument.
pub mod Digits
pub mod Periods
use port_agent.Prelude.{
  ℕ, ◌+◌, ◌*◌, ◌/◌, ◌%◌, ◌<◌, ◌≡◌, ◌≢◌, ◌↔◌, refl, sym, ap, subst, false, ◌∙◌, arith, if◌then◌else◌,
  not, ◌==◌, Bytes, codes, Option, none, some, [], ◌∷◌, ◌++◌, length,
}
use port_agent.Config.{RotationType, daily, hourly, quarter_hourly, minute, second}
use port_agent.Publisher.{LogFile, rotation_code}

-- The fields of `struct tm` that are read; the year in full, the month from 1.
pub record LocalTime : Type 0 where
  pub year : ℕ
  pub month : ℕ
  pub day : ℕ
  pub hour : ℕ
  pub min : ℕ
  pub sec : ℕ

-- "%02d" of a number below 100.
unfoldable pub two_digits : ℕ → Bytes
two_digits n = (48 + n / 10) ∷ (48 + n % 10) ∷ []

-- LogFile::fileDate, "%Y%m%d".
unfoldable pub file_date : LocalTime → Bytes
file_date t =
    two_digits (t.year / 100)
    ++ (two_digits (t.year % 100) ++ (two_digits t.month ++ two_digits t.day))

-- The minute and the second that fileTime prints.
unfoldable pub shown_minute : RotationType → LocalTime → ℕ
shown_minute hourly t = 0
shown_minute quarter_hourly t = t.min / 15 * 15
shown_minute _ t = t.min

unfoldable pub shown_second : RotationType → LocalTime → ℕ
shown_second hourly t = 0
shown_second quarter_hourly t = 0
shown_second minute t = 0
shown_second _ t = t.sec

-- LogFile::fileTime
unfoldable pub file_time : RotationType → LocalTime → Bytes
unfolding two_digits shown_minute shown_second
file_time r t =
    two_digits t.hour ++ (two_digits (shown_minute r t) ++ two_digits (shown_second r t))

-- LogFile::getFilename; `none` is LoggerFileNotSet.
unfoldable pub get_filename : LogFile → LocalTime → Option Bytes
unfolding file_date file_time
get_filename f t =
    if not (length f.file_name == 0)
    then some f.file_name
    else if not (length f.file_base == 0)
    then some (
        f.file_base
        ++ (codes "."
            ++ (file_date t
                ++ ((if not (rotation_code f.rotation == 0)
                      then codes "_" ++ file_time f.rotation t
                      else [])
                    ++ (if not (length f.file_extention == 0)
                        then codes "." ++ f.file_extention
                        else [])))))
    else none
