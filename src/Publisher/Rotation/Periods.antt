-- ===== src/Publisher/Rotation/Periods.antt =====
-- When the file name of a rotated log file changes.
use port_agent.Prelude.{
  ℕ, ◌+◌, ◌*◌, ◌/◌, ◌<◌, ◌≡◌, ◌≢◌, ◌↔◌, refl, sym, ap, subst, false, ◌∙◌, arith, if◌then◌else◌, not,
  ◌==◌, Bytes, codes, Option, none, some, [], ◌∷◌, ◌++◌, length,
}
use port_agent.Config.{RotationType, daily, hourly, quarter_hourly, minute, second}
use port_agent.Publisher.{LogFile, rotation_code}
use port_agent.Publisher.Rotation.{
  LocalTime, file_date, shown_minute, shown_second, file_time, get_filename,
}
use port_agent.Publisher.Rotation.Digits.{
  append_parts, two_digits-same, length-two_digits, length-file_date, length-file_time,
  file_date_iff,
}

-- A time of day without a leap second.
pub record IsTime (t : LocalTime) : Type 0 where
  pub hour_fits : t.hour < 24
  pub min_fits : t.min < 60
  pub sec_fits : t.sec < 60

abbrev pub seconds_of_day : LocalTime → ℕ
seconds_of_day t = t.hour * 3600 + t.min * 60 + t.sec

-- The seconds that one file is written.
abbrev pub period : RotationType → ℕ
period daily = 86400
period hourly = 3600
period quarter_hourly = 900
period minute = 60
period second = 1

abbrev Shown : RotationType → LocalTime → LocalTime → Type 0
Shown r t t' =
    (t.hour ≡ t'.hour)
    × (shown_minute r t ≡ shown_minute r t')
    × (shown_second r t ≡ shown_second r t')

file_time-Shown :
    (r : RotationType) (t t' : LocalTime) → file_time r t ≡ file_time r t' → Shown r t t'
unfolding file_time
file_time-Shown r t t' h =
    let (p, k) = append_parts _ _ _ _ (length-two_digits t.hour t'.hour) h in
    let (q, l) =
      append_parts _ _ _ _ (length-two_digits (shown_minute r t) (shown_minute r t')) k in
    (two_digits-same _ _ p, two_digits-same _ _ q, two_digits-same _ _ l)

Shown-file_time :
    (r : RotationType) (t t' : LocalTime) → Shown r t t' → file_time r t ≡ file_time r t'
unfolding file_time
Shown-file_time r t t' (p, q, s) = cc

abbrev SamePeriod : RotationType → LocalTime → LocalTime → Type 0
SamePeriod r t t' = seconds_of_day t / period r ≡ seconds_of_day t' / period r

-- What fileTime prints of two times is the same within a period, and only there.
same_period :
    (r : RotationType) (t t' : LocalTime)
    → r ≢ daily
    → IsTime t
    → IsTime t'
    → Shown r t t' ↔ SamePeriod r t t'
unfolding shown_minute shown_second
same_period daily t t' n v w = absurd (n refl)
same_period hourly t t' n v w =
    ((λ h. omega (arith, h, v, w)), λ h. (omega (arith, v, w), refl, refl))
same_period quarter_hourly t t' n v w =
    ((λ h. omega (arith, h, v, w)), λ h. (omega (arith, v, w), omega (arith, v, w), refl))
same_period minute t t' n v w =
    ((λ h. omega (arith, h, v, w)), λ h. (omega (arith, v, w), omega (arith, v, w), refl))
same_period second t t' n v w = (
  (λ h. omega (arith, h, v, w)),
  λ h. (omega (arith, v, w), omega (arith, v, w), omega (arith, v, w)),
)

-- A log file with a base and without a name of its own.
abbrev pub rolling : (x : ℕ) (base ext : Bytes) → RotationType → LogFile
rolling x base ext r = record {
  file_name = [];
  file_base = x ∷ base;
  file_extention = ext;
  rotation = r;
}

-- What follows the date.
abbrev extention_part : Bytes → Bytes
extention_part ext = if not (length ext == 0) then codes "." ++ ext else []

abbrev time_part : RotationType → Bytes → LocalTime → Bytes
time_part r ext t =
    (if not (rotation_code r == 0) then codes "_" ++ file_time r t else []) ++ extention_part ext

value : Option Bytes → Bytes
value none = []
value (some l) = l

get_filename-rolling :
    (x : ℕ) (base ext : Bytes) (r : RotationType) (t : LocalTime)
    → get_filename (rolling x base ext r) t
      ≡ some ((x ∷ base) ++ (codes "." ++ (file_date t ++ time_part r ext t)))
unfolding get_filename
get_filename-rolling x base ext r t =
    let z : (length (x ∷ base) == 0) ≡ false = ground arith in rw z refl

get_filename_parts :
    (x : ℕ) (base ext : Bytes) (r : RotationType) (t t' : LocalTime)
    → get_filename (rolling x base ext r) t ≡ get_filename (rolling x base ext r) t'
    → (file_date t ≡ file_date t') × (time_part r ext t ≡ time_part r ext t')
unfolding value
get_filename_parts x base ext r t t' h =
    let e =
      sym (get_filename-rolling x base ext r t) ∙ (h ∙ get_filename-rolling x base ext r t') in
    let (_, k) = append_parts (x ∷ base) (x ∷ base) _ _ refl (ap value e) in
    let (_, l) = append_parts (codes ".") (codes ".") _ _ refl k in
    append_parts (file_date t) (file_date t') _ _ (length-file_date t t') l

time_part-Shown :
    (r : RotationType) (ext : Bytes) (t t' : LocalTime)
    → (rotation_code r == 0) ≡ false
    → time_part r ext t ≡ time_part r ext t'
    → Shown r t t'
time_part-Shown r ext t t' n h =
    let k =
      subst
        (λ b.
          (if not b then codes "_" ++ file_time r t else []) ++ extention_part ext
          ≡ (if not b then codes "_" ++ file_time r t' else []) ++ extention_part ext)
        n h in
    let (_, l) = append_parts (codes "_") (codes "_") _ _ refl k in
    file_time-Shown r t t'
      (append_parts (file_time r t) (file_time r t') _ _ (length-file_time r t t') l).0

time_part_iff :
    (r : RotationType) (ext : Bytes) (t t' : LocalTime)
    → r ≢ daily
    → (rotation_code r == 0) ≡ false
    → IsTime t
    → IsTime t'
    → (time_part r ext t ≡ time_part r ext t') ↔ SamePeriod r t t'
time_part_iff r ext t t' n z v w = (
  (λ h. (same_period r t t' n v w).0 (time_part-Shown r ext t t' z h)),
  λ h.
      ap (λ l. (if not (rotation_code r == 0) then codes "_" ++ l else []) ++ extention_part ext)
        (Shown-file_time r t t' ((same_period r t t' n v w).1 h)),
)

period_iff :
    (r : RotationType) (ext : Bytes) (t t' : LocalTime)
    → IsTime t
    → IsTime t'
    → (time_part r ext t ≡ time_part r ext t') ↔ SamePeriod r t t'
period_iff daily ext t t' v w = ((λ h. omega (arith, v, w)), λ h. refl)
period_iff hourly ext t t' v w = time_part_iff hourly ext t t' (λ e. cc) refl v w
period_iff quarter_hourly ext t t' v w = time_part_iff quarter_hourly ext t t' (λ e. cc) refl v w
period_iff minute ext t t' v w = time_part_iff minute ext t t' (λ e. cc) refl v w
period_iff second ext t t' v w = time_part_iff second ext t t' (λ e. cc) refl v w

-- A file with a base and no name of its own keeps its name as long as year, month and day stay
-- and the time of day stays in one period of its rotation (a day, an hour, a quarter, a minute or
-- a second), and takes another name at each other time, leap seconds left out.
pub get_filename_iff :
    (x : ℕ) (base ext : Bytes) (r : RotationType) (t t' : LocalTime)
    → IsTime t
    → IsTime t'
    → (get_filename (rolling x base ext r) t ≡ get_filename (rolling x base ext r) t') ↔ (
        (t.year ≡ t'.year)
        × (t.month ≡ t'.month)
        × (t.day ≡ t'.day)
        × (seconds_of_day t / period r ≡ seconds_of_day t' / period r))
get_filename_iff x base ext r t t' v w = (
  (λ h.
      let (d, e) = get_filename_parts x base ext r t t' h in
      let (y, m, n) = (file_date_iff t t').0 d in (y, m, n, (period_iff r ext t t' v w).0 e)),
  λ (y, m, n, e).
      get_filename-rolling x base ext r t
      ∙ (ap (λ d. some ((x ∷ base) ++ (codes "." ++ (d ++ time_part r ext t))))
            ((file_date_iff t t').1 (y, m, n))
          ∙ (ap (λ l. some ((x ∷ base) ++ (codes "." ++ (file_date t' ++ l))))
              ((period_iff r ext t t' v w).1 e))
          ∙ sym (get_filename-rolling x base ext r t')),
)
