-- ===== src/Tests/Floats.antt =====
-- Floats as decimal fractions, with whole numbers for single precision, and the facts of
-- `Base.Float` for them.
use batt_lock.Base.{
  ℕ, zero, suc, ◌+◌, ◌*◌, ◌/◌, ◌%◌, ◌^◌, ◌≤◌, ◌<◌, ◌≡◌, refl, ap, if◌then◌else◌, ltb, false, List,
  [], ◌∷◌, get_or, ok, err, overflow_error, arith,
}
use batt_lock.Base.Float.{FloatOps, IsIeee}
use native.Mathlib.Nat.{
  le_of_mul-le-mul_right, mul-le-mul_right, div-mul-le_self, le-div_iff_mul-le, div-le_of_le-mul,
  div-one, mul_comm, mul_assoc,
}

abbrev four : ℕ → List ℕ
four q = q % 256 ∷ q / 256 % 256 ∷ q / 65536 % 256 ∷ q / 16777216 % 256 ∷ []

abbrev pub decimals : FloatOps (ℕ × ℕ)
decimals = record {
  literal = λ m k. (m, k);
  mul = λ (m, j) (n, k). (m * n, j + k);
  gt = λ (m, j) (n, k). ltb (n * 10 ^ j) (m * 10 ^ k);
  single = λ (m, k). (m / 10 ^ k, 0);
  pack = λ (m, k). let q = m / 10 ^ k in if ltb (2 ^ 24) q then err overflow_error else ok (four q);
  unpack =
      λ b. (get_or b 0 0 + 256 * get_or b 1 0 + 65536 * get_or b 2 0 + 16777216 * get_or b 3 0, 0);
}

ten_pos : (k : ℕ) → 0 < 10 ^ k
ten_pos zero = omega arith
ten_pos (suc k) = omega (arith, ten_pos k)

div_mono : (m n a c : ℕ) → 0 < a → 0 < c → m * c ≤ n * a → m / a ≤ n / c
div_mono m n a c ha hc h =
    let q = m / a in
    let below : q * a ≤ m = div-mul-le_self m a in
    let wide : q * a * c ≤ n * a = omega (arith, mul-le-mul_right c below) in
    (le-div_iff_mul-le hc).1
      (le_of_mul-le-mul_right (rw (mul_assoc q c a, mul_comm c a, ← mul_assoc q a c) wide) ha)

pub decimals-IsIeee : IsIeee decimals
decimals-IsIeee = record {
  pack_length = λ x b h. ground arith;
  unpack-pack = λ x b h. ground arith;
  literal_mono = λ m j n k h. ground arith;
  literal_whole = λ m n h l. ground arith;
  single_mono = λ (m, j) (n, k) h.
      (let mono = div_mono m n (10 ^ j) (10 ^ k) (ten_pos j) (ten_pos k) (ground arith) in
        ground arith);
  single_whole = λ n h. ap (λ (q : ℕ). (q, 0)) (div-one n);
  pack_literal = λ m k h.
      (let small : m / 10 ^ k ≤ 2 ^ 24 =
          div-le_of_le-mul (10 ^ k) (omega (arith, h, mul_comm (10 ^ k) (2 ^ 24))) in
        let fits : ltb (2 ^ 24) (m / 10 ^ k) ≡ false = ground arith in
        (four (m / 10 ^ k), rw fits refl));
  pack_single = λ (m, k) b h. rw (div-one (m / 10 ^ k)) h;
}
