-- ===== src/Base/Dates.antt =====
-- `datetime.strptime(s, "%Y-%m-%d")` and the comparison of `datetime.now()` with its result. Digits are
-- those of ASCII. And the days before and after a moment, with `strftime("%Y-%m-%d")`.
pub mod Calendar
pub mod Days
use Prim.Native.Nat.{ℕ, zero, suc, ◌+◌, ◌-◌, ◌*◌, ◌/◌, ◌%◌}
use mathlib.Core.Bool.{Bool, ◌&&◌, ◌||◌, not}
use mathlib.Core.Option.{Option, none, some}
use mathlib.Core.List.{[], ◌∷◌, ◌++◌}
use batt_lock.Base.Tests.{ltb, leb, ◌==◌, if◌then◌else◌}
use batt_lock.Base.Texts.{Text}
use batt_lock.Base.Errors.{Result, ok, err, value_error, overflow_error, bad_date}

-- A date at midnight.
pub record Date : Type 0 where
  pub year : ℕ
  pub month : ℕ
  pub day : ℕ

-- A moment: its date, and the microseconds since midnight.
pub record Moment : Type 0 where
  pub date : Date
  pub since_midnight : ℕ

abbrev is_digit : ℕ → Bool
is_digit c = leb 48 c && leb c 57

abbrev number : ℕ → ℕ → ℕ
number a b = (a - 48) * 10 + (b - 48)

-- `%m` with the dash behind it: 10 to 12, 01 to 09, or 1 to 9.
two_digit_month : ℕ → ℕ → Text → Option (ℕ × Text)
two_digit_month a b [] = none
two_digit_month a b (dash ∷ rest) =
    if dash == 45 && is_digit a && is_digit b && leb 1 (number a b) && leb (number a b) 12
    then some (number a b, rest)
    else none

read_month : Text → Option (ℕ × Text)
unfolding two_digit_month
read_month (a ∷ b ∷ rest) =
    if b == 45
    then if is_digit a && not (a == 48) then some (a - 48, rest) else none
    else two_digit_month a b rest
read_month _ = none

-- `%d` at the end: the longest of 30 and 31, 10 to 29, 01 to 09, 1 to 9, and a blank with 1 to 9; nothing
-- may be left.
read_day : Text → Option ℕ
read_day (b ∷ []) = if is_digit b && not (b == 48) then some (b - 48) else none
read_day (a ∷ b ∷ []) =
    if is_digit a && is_digit b && leb 1 (number a b) && leb (number a b) 31
    then some (number a b)
    else if a == 32 && is_digit b && not (b == 48)
    then some (b - 48)
    else none
read_day _ = none

is_leap : ℕ → Bool
is_leap year = year % 4 == 0 && (not (year % 100 == 0) || year % 400 == 0)

pub days_in_month : ℕ → ℕ → ℕ
unfolding is_leap
days_in_month year month =
    if month == 2
    then if is_leap year then 29 else 28
    else if month == 4 || month == 6 || month == 9 || month == 11
    then 30
    else 31

-- Year 0 and days past the end of their month are ValueErrors too.
check_date : ℕ → ℕ → ℕ → Result Date
unfolding days_in_month
check_date year month day =
    if year == 0 || ltb (days_in_month year month) day
    then err (value_error bad_date)
    else ok (record { year = year; month = month; day = day })

read_month_and_day : ℕ → Text → Result Date
unfolding read_month read_day check_date
read_month_and_day year text = elim (read_month text) [
  | none ↦ err (value_error bad_date)
  | some (month, rest) ↦ elim (read_day rest) [
    | none ↦ err (value_error bad_date)
    | some day ↦ check_date year month day
  ]
]

unfoldable pub strptime : Text → Result Date
unfolding read_month_and_day
strptime (a ∷ b ∷ c ∷ d ∷ dash ∷ rest) =
    if dash == 45 && is_digit a && is_digit b && is_digit c && is_digit d
    then read_month_and_day (number a b * 100 + number c d) rest
    else err (value_error bad_date)
strptime _ = err (value_error bad_date)

-- `timedelta(days=1)` added to a date, and taken from one; before the first of January of the year 1 comes
-- a day of a year 0, which is no year.
unfoldable pub next_day : Date → Date
unfolding days_in_month
next_day d =
    if ltb d.day (days_in_month d.year d.month)
    then record d { day = d.day + 1 }
    else if d.month == 12
    then record { year = d.year + 1; month = 1; day = 1 }
    else record { year = d.year; month = d.month + 1; day = 1 }

unfoldable pub previous_day : Date → Date
unfolding days_in_month
previous_day d =
    if ltb 1 d.day
    then record d { day = d.day - 1 }
    else if d.month == 1
    then record { year = d.year - 1; month = 12; day = 31 }
    else record { year = d.year; month = d.month - 1; day = days_in_month d.year (d.month - 1) }

days_on : ℕ → (Date → Date) → Date → Date
days_on zero step d = d
days_on (suc n) step d = days_on n step (step d)

-- A year that is not 1 to 9999 is an OverflowError.
in_calendar : Date → Result Date
in_calendar d = if d.year == 0 || ltb 9999 d.year then err overflow_error else ok d

-- `now + timedelta(days=n)` and `now - timedelta(days=n)`, as dates.
unfoldable pub days_after : ℕ → Moment → Result Date
unfolding days_on in_calendar
days_after n now = in_calendar (days_on n next_day now.date)

unfoldable pub days_before : ℕ → Moment → Result Date
unfolding days_on in_calendar
days_before n now = in_calendar (days_on n previous_day now.date)

-- The decimal digits of a number of two figures.
abbrev pub two_digits : ℕ → Text
two_digits n = (48 + n / 10) ∷ (48 + n % 10) ∷ []

-- `strftime("%Y-%m-%d")`, with four figures for the year.
unfoldable pub strftime : Date → Text
strftime d =
    two_digits (d.year / 100)
    ++ two_digits (d.year % 100)
    ++ 45 ∷ two_digits d.month
    ++ 45 ∷ two_digits d.day

abbrev pub before : Date → Date → Bool
before a b =
    ltb a.year b.year
    || (a.year == b.year && (ltb a.month b.month || (a.month == b.month && ltb a.day b.day)))

-- `now > date`
unfoldable pub is_past : Moment → Date → Bool
is_past now date = before date now.date || (not (before now.date date) && ltb 0 now.since_midnight)
