-- ===== src/Calendar/Text.antt =====
-- `Parse` and `Format` for the layout 2006-01-02, on texts.
use Prim.Native.Char.{code}
use mathlib.Core.Option
use Prim.Native.String.{◌++◌}
use xmiete.Prelude.{
  ℕ, zero, suc, ◌+◌, ◌-◌, ◌*◌, ◌/◌, ◌%◌, String, ◌&&◌, leb, eqb, if◌then◌else◌, Option, none, some,
}
use xmiete.Prelude.Decimal.{digit_text}
use xmiete.Calendar.Civil.{Civil, days_in, date_of, second, Time}

two_digits : ℕ → String
two_digits n = digit_text (n / 10 % 10) ++ digit_text (n % 10)

-- t.Format("2006-01-02"), for a year below 10000.
unfoldable pub format_date : Civil → String
unfolding two_digits
format_date c =
    two_digits (c.year / 100)
    ++ (two_digits c.year ++ ("-" ++ (two_digits c.month ++ ("-" ++ two_digits c.day))))

-- t.Format(time.RFC3339), in UTC
unfoldable pub format_rfc3339 : Time → String
unfolding two_digits
format_rfc3339 t =
    let seconds = t / second in
    format_date (date_of t)
    ++ ("T"
        ++ (two_digits (seconds / 3600 % 24)
            ++ (":"
                ++ (two_digits (seconds / 60 % 60)
                    ++ (":" ++ (two_digits (seconds % 60) ++ "Z"))))))

-- t.Format("2006-01-02 15:04:05"), in UTC
unfoldable pub format_datetime : Time → String
unfolding two_digits
format_datetime t =
    let seconds = t / second in
    format_date (date_of t)
    ++ (" "
        ++ (two_digits (seconds / 3600 % 24)
            ++ (":" ++ (two_digits (seconds / 60 % 60) ++ (":" ++ two_digits (seconds % 60))))))

-- A reader takes the start of a text and leaves the rest.
abbrev Reader : Type 0 → Type 0
Reader R = String → Option (R × String)

module _ {R T : Type 0} where
  infixl 5 ◌>>=◌
  abbrev ◌>>=◌ : Reader R → (R → Reader T) → Reader T
  ◌>>=◌ read f s = elim (read s) [ none ↦ none | some rest ↦ f rest.0 rest.1 ]

infixl 5 ◌>>◌
abbrev ◌>>◌ : {T : Type 0} → Reader (Unit {0}) → Reader T → Reader T
read >> next = read >>= λ _. next

-- As many digits as asked for, after the number read so far.
read_digits : ℕ → ℕ → Reader ℕ
read_digits zero n s = some (n, s)
read_digits (suc more) n String.[] = none
read_digits (suc more) n (String.◌∷◌ c s) =
    let next = read_digits more (10 * n + (code c - b'0')) s in
    if leb b'0' (code c) && leb (code c) b'9' then next else none

read_dash : Reader (Unit {0})
read_dash String.[] = none
read_dash (String.◌∷◌ c s) = if eqb (code c) b'-' then some (tt, s) else none

abbrev read_date : Civil → Reader Civil
read_date c String.[] =
    if leb 1 c.month && leb c.month 12 && leb 1 c.day && leb c.day (days_in c.year c.month)
    then some (c, String.[])
    else none
read_date c (String.◌∷◌ _ _) = none

-- time.Parse("2006-01-02", s): two digits for the month and the day, and nothing after them.
unfoldable pub parse_date : String → Option Civil
unfolding read_digits read_dash
parse_date s = Option.map (λ read. read.0) (reader s)
  where
    reader : Reader Civil
    reader = do
      y ← read_digits 4 0
      read_dash
      m ← read_digits 2 0
      read_dash
      d ← read_digits 2 0
      read_date (record { year = y; month = m; day = d })
