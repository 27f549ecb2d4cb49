-- ===== src/Tests/Calendar.antt =====
-- Dates on both sides of a leap day and of a new year.
use mathlib.Core.Option
use xmiete.Prelude.{◌≡◌, refl, some}
use xmiete.Calendar.{format_date, add_date, parse_date, date_of}

leap_day :
    Option.map (λ c. format_date (add_date 1 0 c)) (parse_date "2024-02-29") ≡ some "2025-03-01"
unfolding parse_date format_date add_date
leap_day = refl

new_year : format_date (add_date 0 14 (record { year = 2026; month = 12; day = 25 })) ≡ "2027-01-08"
unfolding format_date add_date
new_year = refl

zero_time : format_date (date_of 0) ≡ "0001-01-01"
unfolding format_date date_of
zero_time = refl
