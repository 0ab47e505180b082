-- ===== src/Base/Decimal.antt =====
-- `str(n)` of an int that is not negative.
use Prim.Native.Nat.{ℕ, zero, suc, ◌+◌, ◌-◌, ◌*◌, ◌/◌, ◌%◌, ◌<◌}
use mathlib.Core.Path.{◌≡◌, ap}
use mathlib.Core.Logic.{inl, inr}
use mathlib.Core.List.{[], ◌∷◌}
use native.Mathlib.Omega.{arith}
use batt_lock.Base.Tests.{◌==◌, if◌then◌else◌, Bool-cases}
use batt_lock.Base.Texts.{Text}
use batt_lock.Base.Lists.{All}

-- The digits of `n` in front of `later`, on fuel.
digits_before : ℕ → ℕ → Text → Text
digits_before zero n later = later
digits_before (suc fuel) n later =
    let digits = (48 + n % 10) ∷ later in
    let more = digits_before fuel (n / 10) digits in if n / 10 == 0 then digits else more

-- One more than the number is fuel enough, since every digit divides it by 10.
unfoldable pub decimal : ℕ → Text
unfolding digits_before
decimal n = digits_before (suc n) n []

-- `int(s)` of digits, behind the number `front`.
pub read_onto : ℕ → Text → ℕ
read_onto front [] = front
read_onto front (c ∷ cs) = read_onto (front * 10 + (c - 48)) cs

read_onto-digits_before :
    (fuel n : ℕ) (later : Text)
    → n < fuel
    → read_onto 0 (digits_before fuel n later) ≡ read_onto n later
unfolding digits_before read_onto
read_onto-digits_before zero n later h = absurd (omega arith)
read_onto-digits_before (suc fuel) n later h = elim (Bool-cases (n / 10 == 0)) [
  | inl last ↦
      let one : 0 * 10 + (48 + n % 10 - 48) ≡ n = ground arith in
      rw last (ap (λ (k : ℕ). read_onto k later) one)
  | inr more ↦
      let whole : n / 10 * 10 + (48 + n % 10 - 48) ≡ n = omega arith in
      rw (more, read_onto-digits_before fuel (n / 10) ((48 + n % 10) ∷ later) (ground arith))
        (ap (λ (k : ℕ). read_onto k later) whole)
]

-- The text of a number stands for that number.
pub read_onto-decimal : (n : ℕ) → read_onto 0 (decimal n) ≡ n
unfolding decimal read_onto
read_onto-decimal n = read_onto-digits_before (suc n) n [] (omega arith)

digits_before_ascii :
    (fuel n : ℕ) (later : Text)
    → All (λ c. c < 128) later
    → All (λ c. c < 128) (digits_before fuel n later)
unfolding digits_before
digits_before_ascii zero n later h = h
digits_before_ascii (suc fuel) n later h = elim (Bool-cases (n / 10 == 0)) [
  | inl last ↦ rw last (omega arith, h)
  | inr more ↦ rw more (digits_before_ascii fuel (n / 10) ((48 + n % 10) ∷ later) (omega arith, h))
]

pub decimal_ascii : (n : ℕ) → All (λ c. c < 128) (decimal n)
unfolding decimal
decimal_ascii n = digits_before_ascii (suc n) n [] tt
