-- ===== src/Base/Bits.antt =====
-- Facts about `&` and `|` on small ranges, by evaluation at every value.
use Prim.Native.Nat.{ℕ, zero, suc, ◌*◌, ◌/◌, ◌<◌, bit_and, bit_or}
use mathlib.Core.Path.{◌≡◌, refl}
use mathlib.Core.Bool.{Bool, true, false}
use native.Mathlib.Omega.{arith}
use batt_lock.Base.Tests.{◌==◌, ==_iff, ltb, if◌then◌else◌}

holds_up_to : (ℕ → Bool) → ℕ → Bool
holds_up_to test zero = true
holds_up_to test (suc n) = if test n then holds_up_to test n else false

holds_at : (test : ℕ → Bool) (k n : ℕ) → k < n → holds_up_to test n ≡ true → test k ≡ true
unfolding holds_up_to
holds_at test k zero small h = absurd (omega arith)
holds_at test k (suc n) small h = ground (arith, holds_at test k n)

-- A 16-bit length written as two bytes and read back, on the lengths that the transport uses.
header_table :
    holds_up_to (λ n. bit_or (bit_and n 0xff) (bit_and (n / 256) 0xff * 256) == n) 1791 ≡ true
unfolding holds_up_to
header_table = refl

pub header_bytes : (n : ℕ) → n < 1791 → bit_or (bit_and n 0xff) (bit_and (n / 256) 0xff * 256) ≡ n
header_bytes n h = (==_iff _ n).0 (holds_at _ n 1791 h header_table)

low_byte_table : holds_up_to (λ n. ltb (bit_and n 0xff) 256) 1791 ≡ true
unfolding holds_up_to
low_byte_table = refl

high_byte_table : holds_up_to (λ n. ltb (bit_and (n / 256) 0xff) 256) 1791 ≡ true
unfolding holds_up_to
high_byte_table = refl

-- `& 0xFF` leaves a byte.
pub low_byte_lt : (n : ℕ) → n < 1791 → bit_and n 0xff < 256
low_byte_lt n h = ground (arith, holds_at _ n 1791 h low_byte_table)

pub high_byte_lt : (n : ℕ) → n < 1791 → bit_and (n / 256) 0xff < 256
high_byte_lt n h = ground (arith, holds_at _ n 1791 h high_byte_table)
