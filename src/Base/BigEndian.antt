-- ===== src/Base/BigEndian.antt =====
-- `int.to_bytes(n, "big")` and `int.from_bytes(b, "big")`, on ints that are not negative.
use Prim.Native.Nat.{ℕ, zero, suc, ◌+◌, ◌*◌, ◌/◌, ◌%◌, ◌^◌, ◌<◌}
use mathlib.Core.Path.{◌≡◌, refl}
use mathlib.Core.List.{List, [], ◌∷◌, ◌++◌}
use native.Mathlib.Omega.{arith}
use batt_lock.Base.Tests.{leb, if◌then◌else◌}
use batt_lock.Base.Lists.{length, length-append}
use batt_lock.Base.Errors.{Result, ok, err, overflow_error}

-- The `n` low bytes, the least last.
pub low_bytes : ℕ → ℕ → List ℕ
low_bytes zero x = []
low_bytes (suc n) x = low_bytes n (x / 256) ++ x % 256 ∷ []

unfoldable pub to_bytes : ℕ → ℕ → Result (List ℕ)
to_bytes x n = if leb (256 ^ n) x then err overflow_error else ok (low_bytes n x)

pub from_bytes_onto : ℕ → List ℕ → ℕ
from_bytes_onto acc [] = acc
from_bytes_onto acc (b ∷ bs) = from_bytes_onto (acc * 256 + b) bs

unfoldable pub from_bytes : List ℕ → ℕ
unfolding from_bytes_onto
from_bytes b = from_bytes_onto 0 b

pub length-low_bytes : (n x : ℕ) → length (low_bytes n x) ≡ n
unfolding low_bytes
length-low_bytes zero x = refl
length-low_bytes (suc n) x =
    omega
      (arith, length-append (low_bytes n (x / 256)) (x % 256 ∷ []), length-low_bytes n (x / 256))

from_bytes_onto-append :
    (acc : ℕ) (b : List ℕ) (x : ℕ)
    → from_bytes_onto acc (b ++ x ∷ []) ≡ from_bytes_onto acc b * 256 + x
unfolding from_bytes_onto
from_bytes_onto-append acc [] x = refl
from_bytes_onto-append acc (y ∷ b) x = from_bytes_onto-append (acc * 256 + y) b x

pow_pos : (n : ℕ) → 0 < 256 ^ n
pow_pos zero = omega arith
pow_pos (suc n) = omega (arith, pow_pos n)

from_bytes_onto-low_bytes : (n x : ℕ) → x < 256 ^ n → from_bytes_onto 0 (low_bytes n x) ≡ x
unfolding low_bytes from_bytes_onto
from_bytes_onto-low_bytes zero x h = omega arith
from_bytes_onto-low_bytes (suc n) x h =
    rw
      (
        from_bytes_onto-append 0 (low_bytes n (x / 256)) (x % 256),
        from_bytes_onto-low_bytes n (x / 256) (omega arith),
      )
      (omega arith)

-- A number that fits is read back from its bytes.
pub from_bytes-to_bytes :
    (n x : ℕ) → x < 256 ^ n → (to_bytes x n ≡ ok (low_bytes n x)) × (from_bytes (low_bytes n x) ≡ x)
unfolding to_bytes from_bytes
from_bytes-to_bytes n x h = (ground arith, from_bytes_onto-low_bytes n x h)
