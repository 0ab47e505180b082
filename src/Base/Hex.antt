-- ===== src/Base/Hex.antt =====
-- `bytes.hex()` and `bytes.fromhex`.
use Prim.Native.Nat.{ℕ, ◌+◌, ◌-◌, ◌*◌, ◌/◌, ◌%◌, ◌<◌}
use mathlib.Core.Path.{◌≡◌, refl}
use mathlib.Core.Bool.{Bool, ◌&&◌, ◌||◌}
use mathlib.Core.Option.{Option, none, some}
use mathlib.Core.List.{List, [], ◌∷◌}
use native.Mathlib.Omega.{arith}
use batt_lock.Base.Tests.{ltb, leb, ◌==◌, if◌then◌else◌}
use batt_lock.Base.Lists.{All}
use batt_lock.Base.Texts.{Text}
use batt_lock.Base.Errors.{Result, ok, err, ◌>>=◌, value_error, bad_hex}

-- 0 to 9, a to f.
hex_digit : ℕ → ℕ
hex_digit v = if ltb v 10 then v + 48 else v + 87

unfoldable pub to_hex : List ℕ → Text
unfolding hex_digit
to_hex [] = []
to_hex (b ∷ bs) = hex_digit (b / 16) ∷ hex_digit (b % 16) ∷ to_hex bs

-- The value of a digit of either case.
hex_value : ℕ → Option ℕ
hex_value c =
    if leb 48 c && leb c 57
    then some (c - 48)
    else if leb 97 c && leb c 102
    then some (c - 87)
    else if leb 65 c && leb c 70
    then some (c - 55)
    else none

hex_pair : Option ℕ → Option ℕ → Result ℕ
hex_pair (some h) (some l) = ok (h * 16 + l)
hex_pair _ _ = err (value_error bad_hex)

-- The blanks of ASCII, which may stand between two bytes.
is_blank : ℕ → Bool
is_blank c = c == 32 || (leb 9 c && leb c 13)

unfoldable pub from_hex : Text → Result (List ℕ)
unfolding hex_value hex_pair is_blank
from_hex [] = ok []
from_hex (c ∷ []) = if is_blank c then ok [] else err (value_error bad_hex)
from_hex (c ∷ d ∷ cs) =
    let skipped = from_hex (d ∷ cs) in
    let read = (do b ← hex_pair (hex_value c) (hex_value d); bs ← from_hex cs; ok (b ∷ bs)) in
    if is_blank c then skipped else read

-- The digit of a value below 16 stands for that value, and is no blank.
hex_value-hex_digit : (v : ℕ) → v < 16 → hex_value (hex_digit v) ≡ some v
unfolding hex_value hex_digit
hex_value-hex_digit v h = ground arith

blank-hex_digit : (v : ℕ) → is_blank (hex_digit v) ≡ Bool.false
unfolding is_blank hex_digit
blank-hex_digit v = ground arith

-- What is written in hexadecimal is read back.
pub from_hex-to_hex : (bs : List ℕ) → All (λ b. b < 256) bs → from_hex (to_hex bs) ≡ ok bs
unfolding from_hex to_hex hex_pair
from_hex-to_hex [] h = refl
from_hex-to_hex (b ∷ bs) h =
    let whole : b / 16 * 16 + b % 16 ≡ b = omega arith in
    rw
      (
        blank-hex_digit (b / 16),
        hex_value-hex_digit (b / 16) (omega arith),
        hex_value-hex_digit (b % 16) (omega arith),
        from_hex-to_hex bs h.1,
        whole,
      )
      refl

hex_digit_visible : (v : ℕ) → v < 16 → (32 < hex_digit v) × (hex_digit v < 127)
unfolding hex_digit
hex_digit_visible v h = (ground arith, ground arith)

-- It is written in ASCII, without blanks.
pub to_hex-visible :
    (bs : List ℕ) → All (λ b. b < 256) bs → All (λ c. (32 < c) × (c < 127)) (to_hex bs)
unfolding to_hex
to_hex-visible [] h = tt
to_hex-visible (b ∷ bs) h = (
  hex_digit_visible (b / 16) (omega arith),
  (hex_digit_visible (b % 16) (omega arith), to_hex-visible bs h.1),
)
