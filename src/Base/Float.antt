-- ===== src/Base/Float.antt =====
-- Python's floats, as far as the program uses them: literals, comparison, and single precision
-- (`struct`'s format f). The program computes with floats of the language; the model takes them as a
-- parameter, with the facts of IEEE 754 that the proofs need.
use Prim.Native.Nat.{ℕ, ◌*◌, ◌^◌, ◌≤◌, ◌<◌}
use mathlib.Core.Path.{◌≡◌}
use mathlib.Core.Bool.{Bool, true, false}
use mathlib.Core.List.{List}
use batt_lock.Base.Lists.{length}
use batt_lock.Base.Errors.{Result, ok}

pub record FloatOps (F : Type 0) : Type 0 where
  -- The literal `m / 10 ^ k`, such as 51.2 for `literal 512 1`.
  pub literal : ℕ → ℕ → F
  -- `x * y`
  pub mul : F → F → F
  -- `x > y`
  pub gt : F → F → Bool
  -- The nearest value of single precision.
  pub single : F → F
  -- `struct.pack("<f", x)`, which raises OverflowError for a value that is too large.
  pub pack : F → Result (List ℕ)
  -- `struct.unpack("<f", b)` of four bytes.
  pub unpack : List ℕ → F

-- What IEEE 754 and `struct` guarantee.
pub record IsIeee {F : Type 0} (ops : FloatOps F) : Type 0 where
  pub pack_length : (x : F) (b : List ℕ) → ops.pack x ≡ ok b → length b ≡ 4
  pub unpack-pack : (x : F) (b : List ℕ) → ops.pack x ≡ ok b → ops.unpack b ≡ ops.single x
  -- The reading of a literal is monotone, and exact on small whole numbers.
  pub literal_mono :
      (m j n k : ℕ) → m * 10 ^ k ≤ n * 10 ^ j → ops.gt (ops.literal m j) (ops.literal n k) ≡ false
  pub literal_whole :
      (m n : ℕ) → n < m → m ≤ 2 ^ 24 → ops.gt (ops.literal m 0) (ops.literal n 0) ≡ true
  -- Rounding to single precision is monotone, and exact on small whole numbers.
  pub single_mono : (x y : F) → ops.gt x y ≡ false → ops.gt (ops.single x) (ops.single y) ≡ false
  pub single_whole : (n : ℕ) → n ≤ 2 ^ 24 → ops.single (ops.literal n 0) ≡ ops.literal n 0
  -- A literal of moderate size can be packed.
  pub pack_literal :
      (m k : ℕ) → m ≤ 2 ^ 24 * 10 ^ k → (b : List ℕ) × (ops.pack (ops.literal m k) ≡ ok b)
  -- A value of single precision is packed like what it was rounded from.
  pub pack_single : (x : F) (b : List ℕ) → ops.pack x ≡ ok b → ops.pack (ops.single x) ≡ ok b
