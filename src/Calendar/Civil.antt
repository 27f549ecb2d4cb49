-- ===== src/Calendar/Civil.antt =====
-- Days and civil dates: the package time's `Date`, `AddDate`, `Add` and `After`.
use xmiete.Prelude.{ℕ, ◌+◌, ◌-◌, ◌*◌, ◌/◌, ◌%◌, Bool, ◌&&◌, ltb, leb, eqb, not, ◌||◌, if◌then◌else◌}
use xmiete.Prelude.Int.{ℤ, sub_ℕ}

abbrev pub Time : Type 0
Time = ℕ

abbrev pub second : ℕ
second = 1000000000

abbrev pub minute : ℕ
minute = 60 * second

abbrev pub day : ℕ
day = 86400 * second

-- A day number counts from 1 March of the year -400, so that no date of a year from 0 on is
-- negative.
abbrev pub DayNumber : Type 0
DayNumber = ℕ

pub record Civil : Type 0 where
  pub year : ℕ
  pub month : ℕ
  pub day : ℕ

-- The day number of 0001-01-01.
abbrev pub first_day : DayNumber
first_day = 146403

-- The number of a date; a day beyond the end of its month runs on into the next, as in time.Date.
unfoldable pub day_number : Civil → DayNumber
day_number c =
    let y = c.year + 400 - (if leb c.month 2 then 1 else 0) in
    let m = (c.month + 9) % 12 in
    y / 400 * 146097 + (y % 400 * 365 + y % 400 / 4 - y % 400 / 100) + (153 * m + 2) / 5 + c.day - 1

unfoldable pub civil : DayNumber → Civil
civil n =
    let era = n / 146097 in
    let doe = n % 146097 in
    let yoe = (doe - doe / 1460 + doe / 36524 - doe / 146096) / 365 in
    let doy = doe - (365 * yoe + yoe / 4 - yoe / 100) in
    let mp = (5 * doy + 2) / 153 in
    let m = if ltb mp 10 then mp + 3 else mp - 9 in
    record {
      year = yoe + era * 400 + (if leb m 2 then 1 else 0) - 400;
      month = m;
      day = doy - (153 * mp + 2) / 5 + 1;
    }

-- The date of a time, in UTC.
unfoldable pub date_of : Time → Civil
unfolding civil
date_of t = civil (t / day + first_day)

-- t.AddDate(years, 0, days), for a date.
unfoldable pub add_date : ℕ → ℕ → Civil → Civil
unfolding civil day_number
add_date years days c = civil (day_number (record c { year = c.year + years }) + days)

-- The midnight that a date begins with, for a year from 1 on.
unfoldable pub midnight : Civil → Time
unfolding day_number
midnight c = (day_number c - first_day) * day

-- t.AddDate(years, 0, 0), which keeps the time of day.
unfoldable pub add_years : ℕ → Time → Time
unfolding midnight add_date date_of
add_years years t = midnight (add_date years 0 (date_of t)) + t % day

-- t.Unix(), the seconds since 1970
abbrev pub unix : Time → ℤ
unix t = sub_ℕ (t / second) 62135596800

-- t.After(u)
abbrev pub after : Time → Time → Bool
after t u = ltb u t

abbrev pub is_leap : ℕ → Bool
is_leap y = eqb (y % 4) 0 && (not (eqb (y % 100) 0) || eqb (y % 400) 0)

abbrev pub days_in : ℕ → ℕ → ℕ
days_in y m =
    if eqb m 2
    then (if is_leap y then 29 else 28)
    else if eqb m 4 || eqb m 6 || eqb m 9 || eqb m 11
    then 30
    else 31
