-- ===== src/Attacks/Fuzzing/Bounds.antt =====
-- The sizes of random and of corrupted frames.
use batt_lock.Base.{
  ℕ, zero, suc, ◌-◌, ◌≤◌, ◌<◌, ◌≡◌, refl, ap, ◌∙◌, inl, inr, Bool-cases, ltb, [], ◌∷◌, ◌++◌, All,
  length, length-append, length-take, arith,
}
use batt_lock.Can.Message.{Bytes, CanMessage}
use batt_lock.Attacks.Fuzzing.{
  Source, randint, random_bytes, random_frame, fuzz, Operation, flip, truncate, extend, shuffle,
  xor_at, pick, shuffle_on, corrupt,
}

pub randint_bounds :
    (a b : ℕ) (source : Source)
    → a ≤ b
    → (a ≤ (randint a b source).0) × ((randint a b source).0 ≤ b)
unfolding randint
randint_bounds a b source h = grind (arith)

pub length-random_bytes : (n : ℕ) (source : Source) → length (random_bytes n source).0 ≡ n
unfolding random_bytes
length-random_bytes zero source = refl
length-random_bytes (suc n) source = ap suc (length-random_bytes n (randint 0 255 source).1)

random_bytes_below : (n : ℕ) (source : Source) → All (λ b. b < 256) (random_bytes n source).0
unfolding random_bytes
random_bytes_below zero source = tt
random_bytes_below (suc n) source = (
  omega (arith, randint_bounds 0 255 source (omega arith)),
  random_bytes_below n (randint 0 255 source).1,
)

-- A frame of the standard format.
pub record IsStandard (m : CanMessage) : Type 0 where
  pub id : m.arbitration_id ≤ 0x7ff
  pub size : length m.content ≤ 8
  pub bytes : All (λ b. b < 256) m.content

random_frame-IsStandard : (source : Source) → IsStandard (random_frame source).0
unfolding random_frame
random_frame-IsStandard source =
    let source₁ = (randint 0 0x7ff source).1 in
    let (n, source₂) = randint 0 8 source₁ in
    record {
      id = (randint_bounds 0 0x7ff source (omega arith)).1;
      size = omega (arith, length-random_bytes n source₂, randint_bounds 0 8 source₁ (omega arith));
      bytes = random_bytes_below n source₂;
    }

-- Whatever is drawn, as many frames are made as were asked for, each with an ID of 11 bits and at most 8
-- bytes.
pub fuzz-IsStandard :
    (count : ℕ) (source : Source)
    → (length (fuzz count source).0 ≡ count) × All IsStandard (fuzz count source).0
unfolding fuzz
fuzz-IsStandard zero source = (refl, tt)
fuzz-IsStandard (suc count) source =
    let (size, all) = fuzz-IsStandard count (random_frame source).1 in
    (ap suc size, (random_frame-IsStandard source, all))

length-xor_at : (i m : ℕ) (bs : Bytes) → length (xor_at i m bs) ≡ length bs
unfolding xor_at
length-xor_at i m [] = refl
length-xor_at zero m (b ∷ bs) = refl
length-xor_at (suc i) m (b ∷ bs) = ap suc (length-xor_at i m bs)

length-pick : (i b : ℕ) (bs : Bytes) → length (pick i b bs).1 ≡ length bs
unfolding pick
length-pick i b [] = refl
length-pick zero b (c ∷ cs) = refl
length-pick (suc i) b (c ∷ cs) = ap suc (length-pick i c cs)

length-shuffle_on :
    (fuel : ℕ) (bs : Bytes) (source : Source) → length (shuffle_on fuel bs source).0 ≡ length bs
unfolding shuffle_on
length-shuffle_on fuel [] source = refl
length-shuffle_on zero (b ∷ bs) source = refl
length-shuffle_on (suc fuel) (b ∷ bs) source =
    let (i, source₁) = randint 0 (length bs) source in
    ap suc (length-shuffle_on fuel (pick i b bs).1 source₁ ∙ length-pick i b bs)

-- What each operation makes of the size of at least 8 bytes.
abbrev pub SizeAfter : Operation → ℕ → ℕ → Type 0
SizeAfter flip before after = after ≡ before
SizeAfter truncate before after = after < before
SizeAfter extend before after = after ≡ 8
SizeAfter shuffle before after = after ≡ before

pub corrupt_size :
    (op : Operation) (content : Bytes) (source : Source)
    → 8 ≤ length content
    → SizeAfter op (length content) (length (corrupt op content source).0)
unfolding corrupt
corrupt_size flip content source h = elim (Bool-cases (ltb 0 (length content))) [
  | inl some_bytes ↦
      rw some_bytes (length-xor_at (randint 0 (length content - 1) source).0 _ content)
  | inr empty ↦ absurd (ground arith)
]
corrupt_size truncate content source h =
    let (n, source₁) = randint 0 (length content - 1) source in
    omega (arith, length-take n content, randint_bounds 0 (length content - 1) source (omega arith))
corrupt_size extend content source h =
    let (n, source₁) = randint 1 8 source in
    let more = (random_bytes n source₁).0 in
    omega (arith, length-take 8 (content ++ more), length-append content more)
corrupt_size shuffle content source h = elim (Bool-cases (ltb 1 (length content))) [
  | inl several ↦ rw several (length-shuffle_on (length content) content source)
  | inr few ↦ absurd (ground arith)
]
