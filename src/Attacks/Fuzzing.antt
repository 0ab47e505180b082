-- ===== src/Attacks/Fuzzing.antt =====
-- `attacks/fuzzing_attack.py`. The numbers that the module random draws are a stream, and each call reduces
-- its own to its range.
pub mod Bounds
pub mod Resilience
use Prim.Native.Nat.{bit_xor}
use batt_lock.Base.{
  ℕ, zero, suc, ◌+◌, ◌-◌, ◌%◌, ◌^◌, ltb, ◌==◌, ◌&&◌, not, if◌then◌else◌, List, [], ◌∷◌, ◌++◌,
  length, take, get_or,
}
use batt_lock.Can.Message.{Bytes, CanMessage}

abbrev pub Source : Type 0
Source = ℕ → ℕ

-- `random.randint(a, b)`
unfoldable pub randint : ℕ → ℕ → Source → ℕ × Source
randint a b source = (a + source 0 % (b - a + 1), λ i. source (suc i))

-- `bytes(random.randint(0, 255) for _ in range(n))`
unfoldable pub random_bytes : ℕ → Source → Bytes × Source
unfolding randint
random_bytes zero source = ([], source)
random_bytes (suc n) source =
    let (b, source₁) = randint 0 255 source in
    let (bs, source₂) = random_bytes n source₁ in (b ∷ bs, source₂)

unfoldable pub random_frame : Source → CanMessage × Source
random_frame source =
    let (arbitration_id, source₁) = randint 0 0x7ff source in
    let (n, source₂) = randint 0 8 source₁ in
    let (content, source₃) = random_bytes n source₂ in
    (record { arbitration_id = arbitration_id; content = content }, source₃)

unfoldable pub fuzz : ℕ → Source → List CanMessage × Source
fuzz zero source = ([], source)
fuzz (suc count) source =
    let (frame, source₁) = random_frame source in
    let (frames, source₂) = fuzz count source₁ in (frame ∷ frames, source₂)

-- The choice of "flip", "truncate", "extend" and "shuffle".
pub data Operation : Type 0 where
  flip truncate extend shuffle : Operation

unfoldable pub choose : ℕ → Operation
choose n = if n == 0 then flip else if n == 1 then truncate else if n == 2 then extend else shuffle

-- `data[i] ^= m`
unfoldable pub xor_at : ℕ → ℕ → Bytes → Bytes
xor_at i m [] = []
xor_at zero m (b ∷ bs) = bit_xor b m ∷ bs
xor_at (suc i) m (b ∷ bs) = b ∷ xor_at i m bs

-- The `i`-th element and the others.
pick : ℕ → ℕ → Bytes → ℕ × Bytes
pick i b [] = (b, [])
pick zero b (c ∷ cs) = (b, c ∷ cs)
pick (suc i) b (c ∷ cs) = let (d, ds) = pick i c cs in (d, b ∷ ds)

-- `random.shuffle`: any order, which the draws choose.
shuffle_on : ℕ → Bytes → Source → Bytes × Source
unfolding randint pick
shuffle_on fuel [] source = ([], source)
shuffle_on zero (b ∷ bs) source = (b ∷ bs, source)
shuffle_on (suc fuel) (b ∷ bs) source =
    let (i, source₁) = randint 0 (length bs) source in
    let (c, rest) = pick i b bs in
    let (cs, source₂) = shuffle_on fuel rest source₁ in (c ∷ cs, source₂)

unfoldable pub corrupt : Operation → Bytes → Source → Bytes × Source
unfolding randint shuffle_on
corrupt flip content source =
    let (i, source₁) = randint 0 (length content - 1) source in
    let (bit, source₂) = randint 0 7 source₁ in
    if ltb 0 (length content) then (xor_at i (2 ^ bit) content, source₂) else (content, source)
corrupt truncate content source =
    let (n, source₁) = randint 0 (length content - 1) source in (take n content, source₁)
corrupt extend content source =
    let (n, source₁) = randint 1 8 source in
    let (more, source₂) = random_bytes n source₁ in (take 8 (content ++ more), source₂)
corrupt shuffle content source =
    if ltb 1 (length content) then shuffle_on (length content) content source else (content, source)

unfoldable pub corrupt_status_frame : CanMessage → Source → CanMessage × Source
unfolding choose
corrupt_status_frame original source =
    let (n, source₁) = randint 0 3 source in
    let (content, source₂) = corrupt (choose n) original.content source₁ in
    (record original { content = content }, source₂)
