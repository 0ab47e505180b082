-- ===== src/Base/Dates/Calendar.antt =====
-- Dates of the calendar: what `strftime` writes is read back.
use batt_lock.Base.{leb, ℕ, ◌<◌, ◌≤◌, ◌≡◌, refl, ap, ◌∙◌, true, [], ◌∷◌, ok, some, arith}
use Prim.Native.Nat.{◌+◌, ◌-◌, ◌*◌, ◌/◌, ◌%◌}
use batt_lock.Base.Texts.{Text}
use batt_lock.Base.Dates.{
  Date, strptime, strftime, read_month, read_day, read_month_and_day, check_date, two_digit_month,
  days_in_month,
}

-- A day of a month.
pub record IsDay (d : Date) : Type 0 where
  pub from_january : 1 ≤ d.month
  pub to_december : d.month ≤ 12
  pub from_first : 1 ≤ d.day
  pub to_last : d.day ≤ days_in_month d.year d.month

pub days_in_month_bounds : (y m : ℕ) → (28 ≤ days_in_month y m) × (days_in_month y m ≤ 31)
unfolding days_in_month
days_in_month_bounds y m = ground arith

-- Every month has 28 days.
pub first_days-IsDay : (d : Date) → 1 ≤ d.month → d.month ≤ 12 → 1 ≤ d.day → d.day ≤ 28 → IsDay d
first_days-IsDay d january december first last = record {
  from_january = january;
  to_december = december;
  from_first = first;
  to_last = (let b = days_in_month_bounds d.year d.month in omega (arith, b.0));
}

low_digit : (a : ℕ) → leb 48 (48 + a) ≡ true
low_digit a = ground arith

high_digit : (a : ℕ) → a < 10 → leb (48 + a) 57 ≡ true
high_digit a h = ground arith

digit_value : (a : ℕ) → 48 + a - 48 ≡ a
digit_value a = omega arith

read_year :
    (a b c d : ℕ) (rest : Text)
    → a < 10
    → b < 10
    → c < 10
    → d < 10
    → strptime ((48 + a) ∷ (48 + b) ∷ (48 + c) ∷ (48 + d) ∷ 45 ∷ rest)
      ≡ read_month_and_day ((a * 10 + b) * 100 + (c * 10 + d)) rest
unfolding strptime
read_year a b c d rest ha hb hc hd =
    rw
      (
        strptime,
        low_digit a,
        low_digit b,
        low_digit c,
        low_digit d,
        high_digit a ha,
        high_digit b hb,
        high_digit c hc,
        high_digit d hd,
        digit_value a,
        digit_value b,
        digit_value c,
        digit_value d,
      )
      refl

read_month_digits :
    (a b : ℕ) (rest : Text)
    → a < 10
    → b < 10
    → 1 ≤ a * 10 + b
    → a * 10 + b ≤ 12
    → read_month ((48 + a) ∷ (48 + b) ∷ 45 ∷ rest) ≡ some (a * 10 + b, rest)
unfolding read_month two_digit_month
read_month_digits a b rest ha hb low high = ground arith

read_day_digits :
    (a b : ℕ)
    → a < 10
    → b < 10
    → 1 ≤ a * 10 + b
    → a * 10 + b ≤ 31
    → read_day ((48 + a) ∷ (48 + b) ∷ []) ≡ some (a * 10 + b)
unfolding read_day
read_day_digits a b ha hb low high = ground arith

checked :
    (y m n : ℕ)
    → 1 ≤ y
    → n ≤ days_in_month y m
    → check_date y m n ≡ ok (record { year = y; month = m; day = n })
unfolding check_date
checked y m n year last = ground arith

read_date :
    (a b c d y m n : ℕ)
    → a < 10
    → b < 10
    → c < 10
    → d < 10
    → a * 10 + b ≡ m
    → c * 10 + d ≡ n
    → 1 ≤ y
    → IsDay (record { year = y; month = m; day = n })
    → read_month_and_day y ((48 + a) ∷ (48 + b) ∷ 45 ∷ (48 + c) ∷ (48 + d) ∷ [])
      ≡ ok (record { year = y; month = m; day = n })
unfolding read_month_and_day
read_date a b c d y m n ha hb hc hd month day year is =
    let (_, most) = days_in_month_bounds y m in
    let low = is.from_january in
    let high = is.to_december in
    let first = is.from_first in
    let last = is.to_last in
    rw
      (
        read_month_and_day,
        read_month_digits a b ((48 + c) ∷ (48 + d) ∷ []) ha hb (omega arith) (omega arith),
        read_day_digits c d hc hd (omega arith) (omega arith),
        month,
        day,
      )
      (checked y m n year last)

-- What `strftime` writes for a day of the years 1 to 9999 is read back as the same date.
pub strptime-strftime :
    (d : Date) → 1 ≤ d.year → d.year ≤ 9999 → IsDay d → strptime (strftime d) ≡ ok d
unfolding strftime
strptime-strftime d low high is =
    let y = d.year in
    let m = d.month in
    let n = d.day in
    let (_, most) = days_in_month_bounds y m in
    let december = is.to_december in
    let last = is.to_last in
    let rest : Text = (48 + m / 10) ∷ (48 + m % 10) ∷ 45 ∷ (48 + n / 10) ∷ (48 + n % 10) ∷ [] in
    let year : (y / 100 / 10 * 10 + y / 100 % 10) * 100 + (y % 100 / 10 * 10 + y % 100 % 10) ≡ y =
      omega arith in
    read_year (y / 100 / 10) (y / 100 % 10) (y % 100 / 10) (y % 100 % 10) rest (omega arith)
      (omega arith) (omega arith) (omega arith)
    ∙ ap (λ x. read_month_and_day x rest) year
    ∙ read_date (m / 10) (m % 10) (n / 10) (n % 10) y m n (omega arith) (omega arith) (omega arith)
        (omega arith) (omega arith) (omega arith) low is
