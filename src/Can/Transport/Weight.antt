-- ===== src/Can/Transport/Weight.antt =====
-- The bytes that the frames of a message hold.
use batt_lock.Base.{
  ℕ, zero, suc, ◌≡◌, refl, ◌∙◌, ◌+◌, ◌*◌, ◌≤◌, ◌<◌, bit_or, List, [], ◌∷◌, ◌++◌, length, drop, All,
  ok, arith, get_or, length-append, length-take, length-drop,
}
use Prim.Native.Nat.{min}
use mathlib.Core.List.{Permᴰ}
use batt_lock.Can.Message.{Bytes, CanMessage}
use batt_lock.Can.Transport.{extend, join_frames}
use batt_lock.Can.Transport.Fragment.{continuations, first_frame}

-- The bytes that frames hold, headers included.
unfoldable pub weight : List CanMessage → ℕ
weight [] = 0
weight (f ∷ fs) = length f.content + weight fs

pub weight-permᴰ : {l r : List CanMessage} → Permᴰ l r → weight l ≡ weight r
unfolding weight
weight-permᴰ Permᴰ.nil = refl
weight-permᴰ (Permᴰ.cons e p) = rw (e, weight-permᴰ p)
weight-permᴰ (Permᴰ.swap e d) = rw (e, d) (omega arith)
weight-permᴰ (Permᴰ.trans p q) = weight-permᴰ p ∙ weight-permᴰ q

pub weight-append : (l r : List CanMessage) → weight (l ++ r) ≡ weight l + weight r
unfolding weight
weight-append [] r = omega arith
weight-append (f ∷ l) r = omega (arith, weight-append l r)

length-extend :
    (payload : Bytes) (l : List CanMessage)
    → All (λ f. 1 ≤ length f.content) l
    → length (extend payload l) + length l ≡ length payload + weight l
unfolding extend weight
length-extend payload [] h = omega arith
length-extend payload (f ∷ l) h = omega (
  arith,
  length-extend (payload ++ drop 1 f.content) l h.1,
  length-append payload (drop 1 f.content),
  length-drop 1 f.content,
)

-- The length that the header of a first frame declares.
unfoldable pub declared : CanMessage → ℕ
declared f = bit_or (get_or f.content 1 0) (get_or f.content 2 0 * 256)

-- A message that is accepted holds as many bytes as its first frame declares, and its headers.
pub join_frames-weight :
    (f : CanMessage) (l : List CanMessage) (q : Bytes)
    → All (λ g. 1 ≤ length g.content) l
    → join_frames (f ∷ l) ≡ ok q
    → declared f + 3 + length l ≤ weight (f ∷ l)
unfolding join_frames declared weight
join_frames-weight f l q h e =
    ground (arith, length-extend (drop 3 f.content) l h, length-drop 3 f.content)

module _ (P : CanMessage → Type 0) (f : CanMessage) where
  pub All-remove : (l r : List CanMessage) → All P (l ++ f ∷ r) → All P (l ++ r)
  All-remove [] r h = h.1
  All-remove (g ∷ l) r h = (h.0, All-remove l r h.1)

  pub All-middle : (l r : List CanMessage) → All P (l ++ f ∷ r) → P f
  All-middle [] r h = h.0
  All-middle (g ∷ l) r h = All-middle l r h.1

pub All-map :
    {P Q : CanMessage → Type 0}
    → ((f : CanMessage) → P f → Q f)
    → (l : List CanMessage) → All P l
    → All Q l
All-map h [] a = tt
All-map h (f ∷ l) a = (h f a.0, All-map h l a.1)

pub weight_cons :
    (f : CanMessage) (l : List CanMessage) → weight (f ∷ l) ≡ length f.content + weight l
unfolding weight
weight_cons f l = refl

pub weight_first : (id : ℕ) (p : Bytes) → length (first_frame id p).content ≡ 3 + min 5 (length p)
unfolding first_frame
weight_first id p = omega (arith, length-take 5 p)

pub first_frame_full : (id : ℕ) (p : Bytes) → 1 ≤ length (first_frame id p).content
first_frame_full id p = omega (arith, weight_first id p)

pub weight-continuations :
    (k id seq : ℕ) (rest : Bytes)
    → length rest ≤ 7 * k
    → weight (continuations k id seq rest) ≡ length rest + k
unfolding weight continuations
weight-continuations zero id seq rest h = omega arith
weight-continuations (suc k) id seq rest h = omega (
  arith,
  weight-continuations k id (suc seq) (drop 7 rest),
  length-take 7 rest,
  length-drop 7 rest,
)

-- No continuation frame is empty.
pub continuations-carry :
    (k id seq : ℕ) (rest : Bytes)
    → 7 * k < length rest + 7
    → All (λ f. 2 ≤ length f.content) (continuations k id seq rest)
unfolding continuations
continuations-carry zero id seq rest h = tt
continuations-carry (suc k) id seq rest h = (
  omega (arith, length-take 7 rest),
  continuations-carry k id (suc seq) (drop 7 rest) (omega (arith, length-drop 7 rest)),
)
