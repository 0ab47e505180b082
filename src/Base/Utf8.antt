-- ===== src/Base/Utf8.antt =====
-- `str.encode()` and `bytes.decode()`: UTF-8, with Python's strictness (no surrogate, no overlong
-- form, nothing above U+10FFFF).
pub mod Replace
use batt_lock.Base.Tests.{Bool-cases, ltb, leb, ◌==◌, if◌then◌else◌}
use batt_lock.Base.Lists.{All}
use batt_lock.Base.Texts.{Text}
use batt_lock.Base.Errors.{Result, ok, err, ◌>>=◌, >>=-eq-ok, unicode_error}
use Prim.Native.Nat.{ℕ, suc, ◌+◌, ◌-◌, ◌*◌, ◌/◌, ◌%◌, ◌≤◌, ◌<◌}
use mathlib.Core.Path.{◌≡◌, refl, ◌∙◌}
use mathlib.Core.Logic.{inl, inr}
use mathlib.Core.Bool.{Bool, false, ◌&&◌, ◌||◌}
use mathlib.Core.Option.{Option, none, some}
use mathlib.Core.List.{List, [], ◌∷◌, ◌++◌}
use native.Mathlib.Omega.{arith}

abbrev pub is_surrogate : ℕ → Bool
is_surrogate c = leb 0xd800 c && ltb c 0xe000

unfoldable pub encode_char : ℕ → Result (List ℕ)
encode_char c =
    if ltb c 0x80
    then ok (c ∷ [])
    else if ltb c 0x800
    then ok ((0xc0 + c / 64) ∷ (0x80 + c % 64) ∷ [])
    else if is_surrogate c
    then err unicode_error
    else if ltb c 0x10000
    then ok ((0xe0 + c / 4096) ∷ (0x80 + c / 64 % 64) ∷ (0x80 + c % 64) ∷ [])
    else ok
        ((0xf0 + c / 262144) ∷ (0x80 + c / 4096 % 64) ∷ (0x80 + c / 64 % 64) ∷ (0x80 + c % 64) ∷ [])

unfoldable pub encode : Text → Result (List ℕ)
unfolding encode_char
encode [] = ok []
encode (c ∷ cs) = do here ← encode_char c; rest ← encode cs; ok (here ++ rest)

-- How many continuation bytes are still to come, the bits so far, and the least code point that
-- the form may stand for.
pub record Decoder : Type 0 where
  pub need : ℕ
  pub bits : ℕ
  pub least : ℕ

abbrev pub idle : Decoder
idle = record { need = 0; bits = 0; least = 0 }

-- One byte, which may complete a code point.
unfoldable pub decode_byte : Decoder → ℕ → Result (Option ℕ × Decoder)
decode_byte d b =
    if d.need == 0
    then if ltb b 0x80
      then ok (some b, idle)
      else if ltb b 0xc0
      then err unicode_error
      else if ltb b 0xe0
      then ok (none, record { need = 1; bits = b - 0xc0; least = 0x80 })
      else if ltb b 0xf0
      then ok (none, record { need = 2; bits = b - 0xe0; least = 0x800 })
      else if ltb b 0xf8
      then ok (none, record { need = 3; bits = b - 0xf0; least = 0x10000 })
      else err unicode_error
    else let c = d.bits * 64 + (b - 0x80) in
      if ltb b 0x80 || leb 0xc0 b
      then err unicode_error
      else if d.need == 1
      then if ltb c d.least || ltb 0x10ffff c || is_surrogate c
        then err unicode_error
        else ok (some c, idle)
      else ok (none, record d { need = d.need - 1; bits = c })

abbrev pub put : Option ℕ → Text → Text
put none t = t
put (some c) t = c ∷ t

unfoldable pub decode_from : Decoder → List ℕ → Result Text
decode_from d [] = if d.need == 0 then ok [] else err unicode_error
decode_from d (b ∷ bs) = do (out, d') ← decode_byte d b; rest ← decode_from d' bs; ok (put out rest)

unfoldable pub decode : List ℕ → Result Text
unfolding decode_from decode_byte
decode = decode_from idle

-- A code point of a str.
abbrev pub IsChar : ℕ → Type 0
IsChar c = c < 0x110000

first_byte :
    (q : ℕ)
    → ((q < 0x80) → decode_byte idle q ≡ ok (some q, idle))
      × ((q < 32)
          → decode_byte idle (0xc0 + q) ≡ ok (none, record { need = 1; bits = q; least = 0x80 }))
      × ((q < 16)
          → decode_byte idle (0xe0 + q) ≡ ok (none, record { need = 2; bits = q; least = 0x800 }))
      × ((q < 8)
          → decode_byte idle (0xf0 + q) ≡ ok (none, record { need = 3; bits = q; least = 0x10000 }))
unfolding decode_byte
first_byte q = (λ h. ground arith, λ h. ground arith, λ h. ground arith, λ h. ground arith)

inner_byte :
    (n q l r : ℕ)
    → r < 64
    → decode_byte (record { need = suc (suc n); bits = q; least = l }) (0x80 + r)
      ≡ ok (none, record { need = suc n; bits = q * 64 + r; least = l })
unfolding decode_byte
inner_byte n q l r h = ground arith

last_byte :
    (q l r : ℕ)
    → r < 64
    → l ≤ q * 64 + r
    → q * 64 + r < 0x110000
    → is_surrogate (q * 64 + r) ≡ false
    → decode_byte (record { need = 1; bits = q; least = l }) (0x80 + r)
      ≡ ok (some (q * 64 + r), idle)
unfolding decode_byte
last_byte q l r h lo hi s = ground arith

-- The four forms of a code point, with the digits of 6 bits written out.
data Form (c : ℕ) (bs : List ℕ) : Type 0 where
  one : c < 0x80 → bs ≡ c ∷ [] → Form c bs
  two :
      (q r : ℕ)
      → q < 32
      → r < 64
      → 0x80 ≤ c
      → c ≡ q * 64 + r
      → is_surrogate c ≡ false
      → bs ≡ (0xc0 + q) ∷ (0x80 + r) ∷ []
      → Form c bs
  three :
      (q r s : ℕ)
      → q < 16
      → r < 64
      → s < 64
      → 0x800 ≤ c
      → c ≡ (q * 64 + r) * 64 + s
      → is_surrogate c ≡ false
      → bs ≡ (0xe0 + q) ∷ (0x80 + r) ∷ (0x80 + s) ∷ []
      → Form c bs
  four :
      (q r s t : ℕ)
      → q < 8
      → r < 64
      → s < 64
      → t < 64
      → 0x10000 ≤ c
      → c ≡ ((q * 64 + r) * 64 + s) * 64 + t
      → is_surrogate c ≡ false
      → bs ≡ (0xf0 + q) ∷ (0x80 + r) ∷ (0x80 + s) ∷ (0x80 + t) ∷ []
      → Form c bs

encode_char-Form : (c : ℕ) (bs : List ℕ) → IsChar c → encode_char c ≡ ok bs → Form c bs
encode_char-Form c bs h e = elim (Bool-cases (ltb c 0x80)) [
  | inl small ↦ one (ground arith) (unfold encode_char in ground arith)
  | inr a ↦ elim (Bool-cases (ltb c 0x800)) [
    | inl small ↦
        two (c / 64) (c % 64) (ground arith) (omega arith) (ground arith) (omega arith)
          (ground arith) (unfold encode_char in ground arith)
    | inr b ↦ elim (Bool-cases (is_surrogate c)) [
      | inl surrogate ↦ absurd (unfold encode_char in ground arith)
      | inr valid ↦ elim (Bool-cases (ltb c 0x10000)) [
        | inl small ↦
            three (c / 4096) (c / 64 % 64) (c % 64) (ground arith) (omega arith) (omega arith)
              (ground arith) (omega arith) valid (unfold encode_char in ground arith)
        | inr d ↦
            four (c / 262144) (c / 4096 % 64) (c / 64 % 64) (c % 64) (ground arith) (omega arith)
              (omega arith) (omega arith) (ground arith) (omega arith) valid
              (unfold encode_char in ground arith)
      ]
    ]
  ]
]

right_id : (m : Result Text) → (do t ← m; ok t) ≡ m
right_id (ok t) = refl
right_id (err e) = refl

decode-encode_char :
    (c : ℕ) (bs rest : List ℕ)
    → IsChar c
    → encode_char c ≡ ok bs
    → decode_from idle (bs ++ rest) ≡ (do t ← decode_from idle rest; ok (c ∷ t))
decode-encode_char c bs rest h e = go (encode_char-Form c bs h e)
  where
    go : Form c bs → decode_from idle (bs ++ rest) ≡ (do t ← decode_from idle rest; ok (c ∷ t))
    go (one p e) = rw e (unfold decode_from in rw ((first_byte c).0 p))
    go (two q r hq hr lo e v f) =
        rw (f, e)
          (unfold decode_from in
            rw ((first_byte q).1 hq, last_byte q 0x80 r hr (omega arith) (omega arith) (rw e at v))
              (right_id _))
    go (three q r s hq hr hs lo e v f) =
        rw (f, e)
          (unfold decode_from in
            rw
              (
                (first_byte q).2 hq,
                inner_byte 0 q 0x800 r hr,
                last_byte (q * 64 + r) 0x800 s hs (omega arith) (omega arith) (rw e at v),
              )
              (right_id _ ∙ right_id _))
    go (four q r s t hq hr hs ht lo e v f) =
        rw (f, e)
          (unfold decode_from in
            rw
              (
                (first_byte q).3 hq,
                inner_byte 1 q 0x10000 r hr,
                inner_byte 0 (q * 64 + r) 0x10000 s hs,
                last_byte ((q * 64 + r) * 64 + s) 0x10000 t ht (omega arith) (omega arith)
                    (rw e at v),
              )
              (right_id _ ∙ right_id _ ∙ right_id _))

-- What `encode` writes, `decode` reads back: a str survives the trip through bytes.
pub decode-encode : (t : Text) (bs : List ℕ) → All IsChar t → encode t ≡ ok bs → decode bs ≡ ok t
unfolding encode decode
decode-encode [] bs h e = cc
decode-encode (c ∷ t) bs h e =
    let (here, e₁, r₁) = >>=-eq-ok (encode_char c) _ e in
    let (rest, e₂, r₂) = >>=-eq-ok (encode t) _ r₁ in
    let whole : bs ≡ here ++ rest = cc r₂ in
    rw (whole, decode-encode_char c here rest h.0 e₁, decode-encode t rest h.1 e₂)

-- A code point that is no surrogate.
abbrev pub IsScalar : ℕ → Type 0
IsScalar c = IsChar c × (is_surrogate c ≡ false)

encode_char_total : (c : ℕ) → is_surrogate c ≡ false → (bs : List ℕ) × (encode_char c ≡ ok bs)
unfolding encode_char
encode_char_total c h = elim (Bool-cases (ltb c 0x80)) [
  | inl a ↦ (c ∷ [], rw a refl)
  | inr a ↦ elim (Bool-cases (ltb c 0x800)) [
    | inl b ↦ ((0xc0 + c / 64) ∷ (0x80 + c % 64) ∷ [], rw (a, b) refl)
    | inr b ↦ elim (Bool-cases (ltb c 0x10000)) [
      | inl d ↦
          ((0xe0 + c / 4096) ∷ (0x80 + c / 64 % 64) ∷ (0x80 + c % 64) ∷ [], rw (a, b, h, d) refl)
      | inr d ↦ (
        (0xf0 + c / 262144) ∷ (0x80 + c / 4096 % 64) ∷ (0x80 + c / 64 % 64) ∷ (0x80 + c % 64) ∷ [],
        rw (a, b, h, d) refl,
      )
    ]
  ]
]

-- A str without surrogates can be encoded.
pub encode_total : (t : Text) → All IsScalar t → (bs : List ℕ) × (encode t ≡ ok bs)
unfolding encode
encode_total [] h = ([], refl)
encode_total (c ∷ t) h =
    let (here, e) = encode_char_total c h.0.1 in
    let (rest, f) = encode_total t h.1 in (here ++ rest, rw (e, f))

pub scalar-IsChar : (t : Text) → All IsScalar t → All IsChar t
scalar-IsChar [] h = tt
scalar-IsChar (c ∷ t) h = (h.0.0, scalar-IsChar t h.1)

pub ascii-IsScalar : (t : Text) → All (λ c. c < 128) t → All IsScalar t
ascii-IsScalar [] h = tt
ascii-IsScalar (c ∷ t) h = ((omega arith, ground arith), ascii-IsScalar t h.1)
