-- ===== src/Base/Base64.antt =====
-- `base64.b64encode`, and `base64.b64decode` without `validate`, which skips characters that are not
-- of the alphabet and ends at the padding.
use Prim.Native.Nat.{ℕ, suc, ◌+◌, ◌-◌, ◌*◌, ◌/◌, ◌%◌, ◌<◌}
use mathlib.Core.Path.{◌≡◌, refl}
use mathlib.Core.Bool.{Bool, true, ◌&&◌}
use mathlib.Core.Option.{Option, none, some}
use mathlib.Core.List.{List, [], ◌∷◌}
use native.Mathlib.Omega.{arith}
use batt_lock.Base.Tests.{ltb, leb, ◌==◌, if◌then◌else◌}
use batt_lock.Base.Lists.{All}
use batt_lock.Base.Errors.{Result, ok, err, ◌>>=◌, value_error, bad_base64}

-- The character of a value below 64.
character : ℕ → ℕ
character v =
    if ltb v 26
    then v + 65
    else if ltb v 52
    then v + 71
    else if ltb v 62
    then v - 4
    else if v == 62
    then 43
    else 47

-- The value of a character, if it is one of the alphabet.
digit : ℕ → Option ℕ
digit c =
    if leb 65 c && leb c 90
    then some (c - 65)
    else if leb 97 c && leb c 122
    then some (c - 71)
    else if leb 48 c && leb c 57
    then some (c + 4)
    else if c == 43
    then some 62
    else if c == 47
    then some 63
    else none

digit-character : (v : ℕ) → v < 64 → digit (character v) ≡ some v
unfolding digit character
digit-character v h = ground arith

ascii-character : (v : ℕ) → v < 64 → ltb (character v) 128 ≡ true
unfolding character
ascii-character v h = ground arith

pub b64encode : List ℕ → List ℕ
b64encode [] = []
b64encode (x ∷ []) = character (x / 4) ∷ character (x % 4 * 16) ∷ 61 ∷ 61 ∷ []
b64encode (x ∷ y ∷ []) =
    character (x / 4) ∷ character (x % 4 * 16 + y / 16) ∷ character (y % 16 * 4) ∷ 61 ∷ []
b64encode (x ∷ y ∷ z ∷ rest) =
    character (x / 4)
    ∷ character (x % 4 * 16 + y / 16)
    ∷ character (y % 16 * 4 + z / 64)
    ∷ character (z % 64)
    ∷ b64encode rest

-- Where in a group of four characters the decoder is, with the bits left of the last character.
data Quad : Type 0 where
  start : Quad
  one_read two_read three_read : ℕ → Quad

-- The rest of the text, with the number of padding characters just read.
decode_quad : Quad → ℕ → List ℕ → Result (List ℕ)
decode_quad start pads [] = ok []
decode_quad (one_read left) pads [] = err (value_error bad_base64)
decode_quad (two_read left) pads [] = err (value_error bad_base64)
decode_quad (three_read left) pads [] = err (value_error bad_base64)
decode_quad start pads (c ∷ cs) = elim (digit c) [
  | some v ↦ decode_quad (one_read v) 0 cs
  | none ↦ decode_quad start pads cs
]
decode_quad (one_read left) pads (c ∷ cs) = elim (digit c) [
  | some v ↦ do rest ← decode_quad (two_read (v % 16)) 0 cs; ok ((left * 4 + v / 16) ∷ rest)
  | none ↦ decode_quad (one_read left) pads cs
]
decode_quad (two_read left) pads (c ∷ cs) = elim (digit c) [
  | some v ↦ do rest ← decode_quad (three_read (v % 4)) 0 cs; ok ((left * 16 + v / 4) ∷ rest)
  | none ↦
      let later = decode_quad (two_read left) (suc pads) cs in
      let skipped = decode_quad (two_read left) pads cs in
      if c == 61 then if leb 2 (suc pads) then ok [] else later else skipped
]
decode_quad (three_read left) pads (c ∷ cs) = elim (digit c) [
  | some v ↦ do rest ← decode_quad start 0 cs; ok ((left * 64 + v) ∷ rest)
  | none ↦ let skipped = decode_quad (three_read left) pads cs in if c == 61 then ok [] else skipped
]

-- A str is first encoded in ASCII.
is_ascii : List ℕ → Bool
is_ascii [] = true
is_ascii (c ∷ cs) = ltb c 128 && is_ascii cs

pub b64decode : List ℕ → Result (List ℕ)
unfolding decode_quad is_ascii
b64decode text = if is_ascii text then decode_quad start 0 text else err (value_error bad_base64)

abbrev pub IsByte : ℕ → Type 0
IsByte x = x < 256

ascii-b64encode : (b : List ℕ) → All IsByte b → is_ascii (b64encode b) ≡ true
unfolding b64encode is_ascii
ascii-b64encode [] h = refl
ascii-b64encode (x ∷ []) h =
    rw (ascii-character (x / 4) (omega arith), ascii-character (x % 4 * 16) (omega arith)) refl
ascii-b64encode (x ∷ y ∷ []) h =
    rw
      (
        ascii-character (x / 4) (omega arith),
        ascii-character (x % 4 * 16 + y / 16) (omega arith),
        ascii-character (y % 16 * 4) (omega arith),
      )
      refl
ascii-b64encode (x ∷ y ∷ z ∷ b) h =
    rw
      (
        ascii-character (x / 4) (omega arith),
        ascii-character (x % 4 * 16 + y / 16) (omega arith),
        ascii-character (y % 16 * 4 + z / 64) (omega arith),
        ascii-character (z % 64) (omega arith),
        ascii-b64encode b h.1.1.1,
      )
      refl

read_first :
    (v : ℕ) (cs : List ℕ) (pads : ℕ)
    → v < 64
    → decode_quad start pads (character v ∷ cs) ≡ decode_quad (one_read v) 0 cs
unfolding decode_quad
read_first v cs pads h = rw (decode_quad, digit-character v h)

read_second :
    (left v : ℕ) (cs : List ℕ) (pads : ℕ)
    → v < 64
    → decode_quad (one_read left) pads (character v ∷ cs)
      ≡ (decode_quad (two_read (v % 16)) 0 cs >>= λ rest. ok ((left * 4 + v / 16) ∷ rest))
unfolding decode_quad
read_second left v cs pads h = rw (decode_quad, digit-character v h)

read_third :
    (left v : ℕ) (cs : List ℕ) (pads : ℕ)
    → v < 64
    → decode_quad (two_read left) pads (character v ∷ cs)
      ≡ (decode_quad (three_read (v % 4)) 0 cs >>= λ rest. ok ((left * 16 + v / 4) ∷ rest))
unfolding decode_quad
read_third left v cs pads h = rw (decode_quad, digit-character v h)

read_fourth :
    (left v : ℕ) (cs : List ℕ) (pads : ℕ)
    → v < 64
    → decode_quad (three_read left) pads (character v ∷ cs)
      ≡ (decode_quad start 0 cs >>= λ rest. ok ((left * 64 + v) ∷ rest))
unfolding decode_quad
read_fourth left v cs pads h = rw (decode_quad, digit-character v h)

padding :
    (left : ℕ)
    → (decode_quad (two_read left) 0 (61 ∷ 61 ∷ []) ≡ ok [])
      × (decode_quad (three_read left) 0 (61 ∷ []) ≡ ok [])
unfolding decode_quad digit
padding left = (refl, refl)

decode_quad-b64encode : (b : List ℕ) → All IsByte b → decode_quad start 0 (b64encode b) ≡ ok b
unfolding b64encode
decode_quad-b64encode [] h = unfold decode_quad in refl
decode_quad-b64encode (x ∷ []) h =
    let bits : x / 4 * 4 + x % 4 * 16 / 16 ≡ x = omega arith in
    rw (
      read_first (x / 4) (character (x % 4 * 16) ∷ 61 ∷ 61 ∷ []) 0 (omega arith),
      read_second (x / 4) (x % 4 * 16) (61 ∷ 61 ∷ []) 0 (omega arith),
      (padding (x % 4 * 16 % 16)).0,
      bits,
    )
decode_quad-b64encode (x ∷ y ∷ []) h =
    let bits₁ : x / 4 * 4 + (x % 4 * 16 + y / 16) / 16 ≡ x = omega arith in
    let bits₂ : (x % 4 * 16 + y / 16) % 16 * 16 + y % 16 * 4 / 4 ≡ y = omega arith in
    rw (
      read_first (x / 4) (character (x % 4 * 16 + y / 16) ∷ character (y % 16 * 4) ∷ 61 ∷ []) 0
          (omega arith),
      read_second (x / 4) (x % 4 * 16 + y / 16) (character (y % 16 * 4) ∷ 61 ∷ []) 0 (omega arith),
      read_third ((x % 4 * 16 + y / 16) % 16) (y % 16 * 4) (61 ∷ []) 0 (omega arith),
      (padding (y % 16 * 4 % 4)).1,
      bits₁,
      bits₂,
    )
decode_quad-b64encode (x ∷ y ∷ z ∷ b) h =
    let v = x % 4 * 16 + y / 16 in
    let w = y % 16 * 4 + z / 64 in
    let bits₁ : x / 4 * 4 + (x % 4 * 16 + y / 16) / 16 ≡ x = omega arith in
    let bits₂ : (x % 4 * 16 + y / 16) % 16 * 16 + (y % 16 * 4 + z / 64) / 4 ≡ y = omega arith in
    let bits₃ : (y % 16 * 4 + z / 64) % 4 * 64 + z % 64 ≡ z = omega arith in
    rw (
      read_first (x / 4) (character v ∷ character w ∷ character (z % 64) ∷ b64encode b) 0
          (omega arith),
      read_second (x / 4) v (character w ∷ character (z % 64) ∷ b64encode b) 0 (omega arith),
      read_third (v % 16) w (character (z % 64) ∷ b64encode b) 0 (omega arith),
      read_fourth (w % 4) (z % 64) (b64encode b) 0 (omega arith),
      decode_quad-b64encode b h.1.1.1,
      bits₁,
      bits₂,
      bits₃,
    )

-- What was encoded is decoded again.
pub b64decode-b64encode : (b : List ℕ) → All IsByte b → b64decode (b64encode b) ≡ ok b
unfolding b64decode
b64decode-b64encode b h = rw (ascii-b64encode b h, decode_quad-b64encode b h)

ascii_lt : (t : List ℕ) → is_ascii t ≡ true → All (λ c. c < 128) t
unfolding is_ascii
ascii_lt [] h = tt
ascii_lt (c ∷ t) h = (ground arith, ascii_lt t (ground arith))

pub b64encode_ascii : (b : List ℕ) → All IsByte b → All (λ c. c < 128) (b64encode b)
b64encode_ascii b h = ascii_lt (b64encode b) (ascii-b64encode b h)
