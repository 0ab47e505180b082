-- ===== src/Base/Dates/Days.antt =====
-- The days before and after a date.
use batt_lock.Base.{
  ◌||◌, ℕ, zero, suc, ◌≤◌, ◌≡◌, refl, inl, inr, Bool-cases, true, false, ltb, ◌==◌, ok, arith,
}
use Prim.Native.Nat.{◌+◌, ◌-◌}
use mathlib.Core.Path.{subst}
use batt_lock.Base.Dates.{
  Date, Moment, before, is_past, strptime, strftime, days_in_month, next_day, previous_day, days_on,
  in_calendar, days_after, days_before,
}
use batt_lock.Base.Dates.Calendar.{IsDay, days_in_month_bounds, strptime-strftime}

next_day-IsDay : (d : Date) → IsDay d → IsDay (next_day d)
unfolding next_day
next_day-IsDay d is = elim (Bool-cases (ltb d.day (days_in_month d.year d.month))) [
  | inl within ↦ rw within (record {
    from_january = is.from_january;
    to_december = is.to_december;
    from_first = omega arith;
    to_last = ground arith;
  })
  | inr over ↦ elim (Bool-cases (d.month == 12)) [
    | inl december ↦
        rw (over, december)
          (record {
            from_january = omega arith;
            to_december = omega arith;
            from_first = omega arith;
            to_last = (let b = days_in_month_bounds (d.year + 1) 1 in omega (arith, b.0));
          })
    | inr earlier ↦
        rw (over, earlier)
          (record {
            from_january = omega arith;
            to_december = (let h = is.to_december in ground arith);
            from_first = omega arith;
            to_last = (let b = days_in_month_bounds d.year (d.month + 1) in omega (arith, b.0));
          })
  ]
]

next_day_later : (d : Date) → before d (next_day d) ≡ true
unfolding next_day
next_day_later d = ground arith

december_days : (y : ℕ) → 31 ≤ days_in_month y 12
unfolding days_in_month
december_days y = omega arith

previous_day-IsDay : (d : Date) → IsDay d → IsDay (previous_day d)
unfolding previous_day
previous_day-IsDay d is = elim (Bool-cases (ltb 1 d.day)) [
  | inl within ↦ rw within (record {
    from_january = is.from_january;
    to_december = is.to_december;
    from_first = ground arith;
    to_last = (let h = is.to_last in omega arith);
  })
  | inr first ↦ elim (Bool-cases (d.month == 1)) [
    | inl january ↦
        rw (first, january)
          (record {
            from_january = omega arith;
            to_december = omega arith;
            from_first = omega arith;
            to_last = december_days (d.year - 1);
          })
    | inr later ↦
        rw (first, later)
          (record {
            from_january = (let h = is.from_january in ground arith);
            to_december = (let h = is.to_december in omega arith);
            from_first = (let b = days_in_month_bounds d.year (d.month - 1) in omega (arith, b.0));
            to_last = omega arith;
          })
  ]
]

previous_day_earlier : (d : Date) → 1 ≤ d.year → IsDay d → before (previous_day d) d ≡ true
unfolding previous_day
previous_day_earlier d year is = let h = is.from_january in ground arith

before_trans : (a b c : Date) → before a b ≡ true → before b c ≡ true → before a c ≡ true
before_trans a b c p q = ground arith

-- What comes before a date that another does not come before.
before_later : (a b c : Date) → before a b ≡ true → before c b ≡ false → before a c ≡ true
before_later a b c p q = ground arith

before_sooner : (a b c : Date) → before a b ≡ true → before a c ≡ false → before c b ≡ true
before_sooner a b c p q = ground arith

before_asym : (a b : Date) → before a b ≡ true → before b a ≡ false
before_asym a b p = ground arith

previous_day_year : (d : Date) → 1 ≤ (previous_day d).year → 1 ≤ d.year
unfolding previous_day
previous_day_year d h = ground arith

later-IsDay : (n : ℕ) (d : Date) → IsDay d → IsDay (days_on n next_day d)
unfolding days_on
later-IsDay zero d is = is
later-IsDay (suc n) d is = later-IsDay n (next_day d) (next_day-IsDay d is)

later_before : (n : ℕ) (d : Date) → before d (days_on (suc n) next_day d) ≡ true
unfolding days_on
later_before zero d = next_day_later d
later_before (suc n) d =
    before_trans d (next_day d) (days_on (suc n) next_day (next_day d)) (next_day_later d)
      (later_before n (next_day d))

date_of : {a b : Date} → ok a ≡ ok b → a ≡ b
date_of h = cc

in_calendar_sound : (d e : Date) → in_calendar d ≡ ok e → (d ≡ e) × (1 ≤ d.year) × (d.year ≤ 9999)
unfolding in_calendar
in_calendar_sound d e h = elim (Bool-cases (d.year == 0 || ltb 9999 d.year)) [
  | inl out ↦ cc (rw out at h)
  | inr within ↦ (date_of (rw within at h), ground arith, ground arith)
]

-- A date that is written can be read, and comes before another one.
abbrev IsBefore : Date → Date → Type 0
IsBefore a b = before a b ≡ true

days_before_one :
    (now : Moment) (d : Date)
    → IsDay now.date
    → days_before 1 now ≡ ok d
    → (strptime (strftime d) ≡ ok d) × IsBefore d now.date
unfolding days_before days_on
days_before_one now d is h =
    let (same, low, high) = in_calendar_sound (previous_day now.date) d h in
    subst (λ (e : Date). (strptime (strftime e) ≡ ok e) × IsBefore e now.date) same
      (
        strptime-strftime (previous_day now.date) low high (previous_day-IsDay now.date is),
        previous_day_earlier now.date (previous_day_year now.date low) is,
      )

days_after_some :
    (n : ℕ) (now : Moment) (d : Date)
    → IsDay now.date
    → days_after (suc n) now ≡ ok d
    → (strptime (strftime d) ≡ ok d) × IsBefore now.date d
unfolding days_after
days_after_some n now d is h =
    let e = days_on (suc n) next_day now.date in
    let (same, low, high) = in_calendar_sound e d h in
    subst (λ (e : Date). (strptime (strftime e) ≡ ok e) × IsBefore now.date e) same
      (strptime-strftime e low high (later-IsDay (suc n) now.date is), later_before n now.date)

-- The day before a moment is past at every moment of its date or a later one.
pub days_before-is_past :
    (utc_now now : Moment) (d : Date)
    → IsDay utc_now.date
    → before now.date utc_now.date ≡ false
    → days_before 1 utc_now ≡ ok d
    → (strptime (strftime d) ≡ ok d) × (is_past now d ≡ true)
unfolding is_past
days_before-is_past utc_now now d is no_sooner h =
    let (read, earlier) = days_before_one utc_now d is h in
    (read, rw (is_past, before_later d utc_now.date now.date earlier no_sooner) refl)

-- A day after a moment is not past at any moment of its date or an earlier one.
pub days_after-is_past :
    (n : ℕ) (utc_now now : Moment) (d : Date)
    → IsDay utc_now.date
    → before utc_now.date now.date ≡ false
    → days_after (suc n) utc_now ≡ ok d
    → (strptime (strftime d) ≡ ok d) × (is_past now d ≡ false)
unfolding is_past
days_after-is_past n utc_now now d is no_later h =
    let (read, later) = days_after_some n utc_now d is h in
    let ahead = before_sooner utc_now.date d now.date later no_later in
    (read, rw (is_past, before_asym now.date d ahead, ahead) refl)
