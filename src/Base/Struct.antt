-- ===== src/Base/Struct.antt =====
-- `struct`: the integer formats I and B, little-endian.
use Prim.Native.Nat.{◌<◌, ℕ, ◌+◌, ◌*◌, ◌/◌, ◌%◌, ◌^◌}
use mathlib.Core.Path.{◌≡◌, refl}
use mathlib.Core.Bool.{true}
use mathlib.Core.List.{List, [], ◌∷◌, ◌++◌}
use native.Mathlib.Omega.{arith}
use batt_lock.Base.Tests.{ltb, if◌then◌else◌}
use batt_lock.Base.Lists.{length, get_or}
use batt_lock.Base.Int.{ℤ, pos, negsuc}
use batt_lock.Base.Errors.{Result, ok, err, ◌>>=◌, >>=-eq-ok, struct_error}

-- `struct.pack` with the fields packed one after the other; the first that fails raises.
unfoldable pub struct_pack : List (Result (List ℕ)) → Result (List ℕ)
struct_pack [] = ok []
struct_pack (r ∷ rs) = do here ← r; rest ← struct_pack rs; ok (here ++ rest)

-- What a successful `struct_pack` has made of its fields.
abbrev pub Packs : List (Result (List ℕ)) → List ℕ → Type 0
Packs [] b = b ≡ []
Packs (r ∷ rs) b =
    (here : List ℕ) × (rest : List ℕ) × (r ≡ ok here) × Packs rs rest × (b ≡ here ++ rest)

pub struct_pack-Packs :
    (rs : List (Result (List ℕ))) (b : List ℕ) → struct_pack rs ≡ ok b → Packs rs b
unfolding struct_pack
struct_pack-Packs [] b h = cc
struct_pack-Packs (r ∷ rs) b h =
    let (here, e, h₁) = >>=-eq-ok r _ h in
    let (rest, f, h₂) = >>=-eq-ok (struct_pack rs) _ h₁ in
    (here, rest, e, struct_pack-Packs rs rest f, cc h₂)

-- If every field can be packed, so can all of them.
abbrev pub IsPackable : List (Result (List ℕ)) → Type 0
IsPackable [] = Unit
IsPackable (r ∷ rs) = ((b : List ℕ) × (r ≡ ok b)) × IsPackable rs

pub struct_pack_total :
    (rs : List (Result (List ℕ))) → IsPackable rs → (b : List ℕ) × (struct_pack rs ≡ ok b)
unfolding struct_pack
struct_pack_total [] h = ([], refl)
struct_pack_total (r ∷ rs) ((here, e), h) =
    let (rest, f) = struct_pack_total rs h in (here ++ rest, rw (e, f))

-- Format I: a value out of range raises struct.error.
unfoldable pub pack_u32 : ℤ → Result (List ℕ)
pack_u32 (negsuc n) = err struct_error
pack_u32 (pos n) =
    if ltb n (2 ^ 32)
    then ok (n % 256 ∷ n / 256 % 256 ∷ n / 65536 % 256 ∷ n / 16777216 % 256 ∷ [])
    else err struct_error

-- Format B.
unfoldable pub pack_u8 : ℤ → Result (List ℕ)
pack_u8 (negsuc n) = err struct_error
pack_u8 (pos n) = if ltb n 256 then ok (n ∷ []) else err struct_error

-- Of four bytes, and of one.
unfoldable pub unpack_u32 : List ℕ → ℤ
unpack_u32 b =
    pos (get_or b 0 0 + 256 * get_or b 1 0 + 65536 * get_or b 2 0 + 16777216 * get_or b 3 0)

unfoldable pub unpack_u8 : List ℕ → ℤ
unpack_u8 b = pos (get_or b 0 0)

pub unpack_u32-pack_u32 :
    (x : ℤ) (b : List ℕ) → pack_u32 x ≡ ok b → (unpack_u32 b ≡ x) × (length b ≡ 4)
unfolding pack_u32 unpack_u32
unpack_u32-pack_u32 (pos n) b h = ground arith
unpack_u32-pack_u32 (negsuc n) b h = cc

pub unpack_u8-pack_u8 : (x : ℤ) (b : List ℕ) → pack_u8 x ≡ ok b → (unpack_u8 b ≡ x) × (length b ≡ 1)
unfolding pack_u8 unpack_u8
unpack_u8-pack_u8 (pos n) b h = ground arith
unpack_u8-pack_u8 (negsuc n) b h = cc

pub pack_u32_total : (n : ℕ) → n < 2 ^ 32 → (b : List ℕ) × (pack_u32 (pos n) ≡ ok b)
unfolding pack_u32
pack_u32_total n h =
    let fits : ltb n (2 ^ 32) ≡ true = ground arith in
    (n % 256 ∷ n / 256 % 256 ∷ n / 65536 % 256 ∷ n / 16777216 % 256 ∷ [], rw fits refl)

pub pack_u8_total : (n : ℕ) → n < 256 → (b : List ℕ) × (pack_u8 (pos n) ≡ ok b)
unfolding pack_u8
pack_u8_total n h = let fits : ltb n 256 ≡ true = ground arith in (n ∷ [], rw fits refl)
