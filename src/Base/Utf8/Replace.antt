-- ===== src/Base/Utf8/Replace.antt =====
-- `bytes.decode(errors="replace")`: the longest beginnings of a code point that cannot go on become
-- U+FFFD each, and the byte at which they break off is read again.
use Prim.Native.Nat.{ℕ, ◌+◌, ◌-◌, ◌*◌, ◌<◌}
use mathlib.Core.Path.{◌≡◌, refl, ap}
use mathlib.Core.Bool.{Bool, ◌&&◌}
use mathlib.Core.Option.{Option, none, some}
use mathlib.Core.List.{List, [], ◌∷◌, ◌++◌}
use native.Mathlib.Omega.{arith}
use batt_lock.Base.Tests.{ltb, leb, ◌==◌, if◌then◌else◌}
use batt_lock.Base.Lists.{All}
use batt_lock.Base.Texts.{Text}
use batt_lock.Base.Errors.{ok}
use batt_lock.Base.Utf8.{encode, encode_char}

-- A code point that is not complete: how many bytes are to come, the bits so far, and the range of the
-- next byte.
record Pending : Type 0 where
  need : ℕ
  bits : ℕ
  low : ℕ
  high : ℕ

begun : ℕ → ℕ → ℕ → ℕ → Text × Option Pending
begun need bits low high = ([], some (record { need = need; bits = bits; low = low; high = high }))

-- A byte where a code point begins.
first : ℕ → Text × Option Pending
unfolding begun
first b =
    if ltb b 0x80
    then (b ∷ [], none)
    else if leb 0xc2 b && leb b 0xdf
    then begun 1 (b - 0xc0) 0x80 0xbf
    else if b == 0xe0
    then begun 2 0 0xa0 0xbf
    else if b == 0xed
    then begun 2 13 0x80 0x9f
    else if leb 0xe1 b && leb b 0xef
    then begun 2 (b - 0xe0) 0x80 0xbf
    else if b == 0xf0
    then begun 3 0 0x90 0xbf
    else if leb 0xf1 b && leb b 0xf3
    then begun 3 (b - 0xf0) 0x80 0xbf
    else if b == 0xf4
    then begun 3 4 0x80 0x8f
    else (0xfffd ∷ [], none)

-- A byte in the range that is expected, with the bits that it gives.
go_on : Pending → ℕ → Text × Option Pending
unfolding begun
go_on p bits = if p.need == 1 then (bits ∷ [], none) else begun (p.need - 1) bits 0x80 0xbf

break_off : Text × Option Pending → Text × Option Pending
break_off (out, next) = (0xfffd ∷ out, next)

advance : Option Pending → ℕ → Text × Option Pending
unfolding first go_on break_off
advance none b = first b
advance (some p) b =
    if leb p.low b && leb b p.high then go_on p (p.bits * 64 + (b - 0x80)) else break_off (first b)

replace_from : Option Pending → List ℕ → Text
unfolding advance
replace_from none [] = []
replace_from (some p) [] = 0xfffd ∷ []
replace_from p (b ∷ bs) = let (out, next) = advance p b in out ++ replace_from next bs

unfoldable pub decode_replace : List ℕ → Text
unfolding replace_from
decode_replace = replace_from none

-- ASCII is read as it stands.
pub decode_replace_ascii : (t : Text) → All (λ c. c < 128) t → decode_replace t ≡ t
unfolding decode_replace advance first
decode_replace_ascii [] h = refl
decode_replace_ascii (c ∷ cs) h =
    let small : ltb c 0x80 ≡ Bool.true = ground arith in
    rw small (ap (◌∷◌ c) (decode_replace_ascii cs h.1))

-- ASCII is written as it stands.
pub encode_ascii : (t : Text) → All (λ c. c < 128) t → encode t ≡ ok t
unfolding encode encode_char
encode_ascii [] h = refl
encode_ascii (c ∷ cs) h =
    let small : ltb c 0x80 ≡ Bool.true = ground arith in rw (small, encode_ascii cs h.1) refl

-- An euro sign; the first two bytes of one before a letter; an overlong form; a surrogate.
samples :
    decode_replace (0xe2 ∷ 0x82 ∷ 0xac ∷ 0xe2 ∷ 0x82 ∷ 65 ∷ 0xc0 ∷ 0x80 ∷ 0xed ∷ 0xa0 ∷ 0x80 ∷ [])
    ≡ 0x20ac ∷ 0xfffd ∷ 65 ∷ 0xfffd ∷ 0xfffd ∷ 0xfffd ∷ 0xfffd ∷ 0xfffd ∷ []
unfolding decode_replace
samples = refl
