-- ===== src/Can/Transport/Order.antt =====
-- `reassemble` sorts its frames: what it returns does not depend on the order of arrival.
use mathlib.Core.List.{Permᴰ, Perm}
use mathlib.Core.Logic.{∥∥₁_elim}
use mathlib.Core.Path.{subst, subst₂}
use batt_lock.Base.{
  ℕ, zero, suc, ◌≡◌, ◌≢◌, refl, sym, ap, ◌∙◌, ◌<◌, inl, inr, Bool-cases, leb, true, list_eq,
  list_eq→eq, list_eq_refl, List, [], ◌∷◌, map, length, All, Result, ok, arith,
}
use batt_lock.Can.Message.{Bytes, CanMessage}
use batt_lock.Can.Transport.{
  sequence, insert_frame, sort_frames, check_frames, check_sequences, join_frames, reassemble,
  range_from,
}

-- No two frames have the same sequence byte.
abbrev pub IsDistinct : List CanMessage → Type 0
IsDistinct [] = Unit
IsDistinct (f ∷ fs) = All (λ g. sequence g ≢ sequence f) fs × IsDistinct fs

module _ (P : CanMessage → Type 0) where
  pub All-permᴰ : {l r : List CanMessage} → Permᴰ l r → All P l → All P r
  All-permᴰ Permᴰ.nil h = tt
  All-permᴰ (Permᴰ.cons e p) h = rw (← e) (h.0, All-permᴰ p h.1)
  All-permᴰ (Permᴰ.swap e d) h = rw (← e, ← d) (h.1.0, (h.0, h.1.1))
  All-permᴰ (Permᴰ.trans p q) h = All-permᴰ q (All-permᴰ p h)

IsDistinct-swap :
    (f g : CanMessage) (l : List CanMessage) → IsDistinct (f ∷ g ∷ l) → IsDistinct (g ∷ f ∷ l)
IsDistinct-swap f g l h = ((λ q. h.0.0 (sym q), h.1.0), (h.0.1, h.1.1))

IsDistinct-permᴰ : {l r : List CanMessage} → Permᴰ l r → IsDistinct l → IsDistinct r
IsDistinct-permᴰ Permᴰ.nil h = tt
IsDistinct-permᴰ (Permᴰ.cons e p) h = rw (← e) (All-permᴰ _ p h.0, IsDistinct-permᴰ p h.1)
IsDistinct-permᴰ (Permᴰ.swap {l = l} e d) h =
    subst₂ (λ f g. IsDistinct (f ∷ g ∷ l)) d e (IsDistinct-swap _ _ l h)
IsDistinct-permᴰ (Permᴰ.trans p q) h = IsDistinct-permᴰ q (IsDistinct-permᴰ p h)

insert_frame_comm :
    (f g : CanMessage) (l : List CanMessage)
    → sequence f ≢ sequence g
    → insert_frame f (insert_frame g l) ≡ insert_frame g (insert_frame f l)
unfolding insert_frame
insert_frame_comm f g [] ne = ground arith
insert_frame_comm f g (h ∷ l) ne = ground (arith, insert_frame_comm f g l)

sort_frames-permᴰ :
    {l r : List CanMessage} → Permᴰ l r → IsDistinct l → sort_frames l ≡ sort_frames r
unfolding sort_frames
sort_frames-permᴰ Permᴰ.nil h = refl
sort_frames-permᴰ (Permᴰ.cons e p) h = rw (← e) (ap (insert_frame _) (sort_frames-permᴰ p h.1))
sort_frames-permᴰ (Permᴰ.swap e d) h = rw (← e, ← d) (insert_frame_comm _ _ _ (λ q. h.0.0 (sym q)))
sort_frames-permᴰ (Permᴰ.trans p q) h =
    sort_frames-permᴰ p h ∙ sort_frames-permᴰ q (IsDistinct-permᴰ p h)

pub length-permᴰ : {l r : List CanMessage} → Permᴰ l r → length l ≡ length r
length-permᴰ Permᴰ.nil = refl
length-permᴰ (Permᴰ.cons e p) = ap suc (length-permᴰ p)
length-permᴰ (Permᴰ.swap e d) = refl
length-permᴰ (Permᴰ.trans p q) = length-permᴰ p ∙ length-permᴰ q

permᴰ_refl : (l : List CanMessage) → Permᴰ l l
permᴰ_refl [] = Permᴰ.nil
permᴰ_refl (f ∷ l) = Permᴰ.cons refl (permᴰ_refl l)

permᴰ_symm : {l r : List CanMessage} → Permᴰ l r → Permᴰ r l
permᴰ_symm Permᴰ.nil = Permᴰ.nil
permᴰ_symm (Permᴰ.cons e p) = Permᴰ.cons (sym e) (permᴰ_symm p)
permᴰ_symm (Permᴰ.swap e d) = Permᴰ.swap (sym d) (sym e)
permᴰ_symm (Permᴰ.trans p q) = Permᴰ.trans (permᴰ_symm q) (permᴰ_symm p)

insert_frame-permᴰ : (f : CanMessage) (l : List CanMessage) → Permᴰ (f ∷ l) (insert_frame f l)
unfolding insert_frame
insert_frame-permᴰ f [] = Permᴰ.cons refl Permᴰ.nil
insert_frame-permᴰ f (g ∷ l) = elim (Bool-cases (leb (sequence f) (sequence g))) [
  | inl le ↦ rw le (permᴰ_refl (f ∷ g ∷ l))
  | inr gt ↦ rw gt (Permᴰ.trans (Permᴰ.swap refl refl) (Permᴰ.cons refl (insert_frame-permᴰ f l)))
]

-- Sorting only reorders.
pub sort_frames-permᴰ_self : (l : List CanMessage) → Permᴰ l (sort_frames l)
unfolding sort_frames
sort_frames-permᴰ_self [] = Permᴰ.nil
sort_frames-permᴰ_self (f ∷ l) =
    Permᴰ.trans (Permᴰ.cons refl (sort_frames-permᴰ_self l)) (insert_frame-permᴰ f (sort_frames l))

-- Frames whose sequence bytes count up from `s` are distinct.
pub range_from-below :
    (s n k : ℕ) (l : List CanMessage)
    → k < s
    → map sequence l ≡ range_from s n
    → All (λ g. sequence g ≢ k) l
range_from-below s n k [] h e = tt
range_from-below s zero k (f ∷ l) h e = cc
range_from-below s (suc n) k (f ∷ l) h e =
    (ground arith, range_from-below (suc s) n k l (omega arith) (cc))

range_from-IsDistinct :
    (s n : ℕ) (l : List CanMessage) → map sequence l ≡ range_from s n → IsDistinct l
range_from-IsDistinct s n [] e = tt
range_from-IsDistinct s zero (f ∷ l) e = cc
range_from-IsDistinct s (suc n) (f ∷ l) e = (
  rw head (range_from-below (suc s) n s l (omega arith) tail),
  range_from-IsDistinct (suc s) n l tail,
)
  where
    head : sequence f ≡ s
    head = cc

    tail : map sequence l ≡ range_from (suc s) n
    tail = cc

check_frames-permᴰ :
    (arb_id : ℕ) {l r : List CanMessage}
    → Permᴰ l r
    → check_frames arb_id l ≡ ok tt
    → check_frames arb_id r ≡ ok tt
unfolding check_frames
check_frames-permᴰ arb_id Permᴰ.nil h = refl
check_frames-permᴰ arb_id (Permᴰ.cons e p) h =
    rw (← e) (ground (arith, check_frames-permᴰ arb_id p))
check_frames-permᴰ arb_id (Permᴰ.swap e d) h = rw (← e, ← d) (ground arith)
check_frames-permᴰ arb_id (Permᴰ.trans p q) h =
    check_frames-permᴰ arb_id q (check_frames-permᴰ arb_id p h)

-- The test on the sequence numbers passes exactly if they count up from 0.
pub check_sequences-ok : (xs : List ℕ) → check_sequences xs ≡ ok tt → xs ≡ range_from 0 (length xs)
unfolding check_sequences
check_sequences-ok xs h = elim (Bool-cases (list_eq xs (range_from 0 (length xs)))) [
  | inl same ↦ list_eq→eq xs _ same
  | inr differ ↦ ground arith
]

pub check_sequences_range :
    (xs : List ℕ) → xs ≡ range_from 0 (length xs) → check_sequences xs ≡ ok tt
unfolding check_sequences
check_sequences_range xs e =
    let same : list_eq xs (range_from 0 (length xs)) ≡ true =
      subst (λ ys. list_eq xs ys ≡ true) e (list_eq_refl xs) in
    rw same

-- What a successful `reassemble` has found out, and what makes it succeed.
pub record Accepted (arb_id : ℕ) (frames : List CanMessage) (payload : Bytes) : Type 0 where
  pub checked : check_frames arb_id frames ≡ ok tt
  pub counted :
      map sequence (sort_frames frames) ≡ range_from 0 (length (map sequence (sort_frames frames)))
  pub joined : join_frames (sort_frames frames) ≡ ok payload

pub reassemble-Accepted :
    (f : CanMessage) (fs : List CanMessage) (p : Bytes)
    → reassemble (f ∷ fs) ≡ ok p
    → Accepted f.arbitration_id (f ∷ fs) p
unfolding reassemble
reassemble-Accepted f fs p h = record {
  checked = ground arith;
  counted = check_sequences-ok _ (ground arith);
  joined = ground arith;
}

pub Accepted-reassemble :
    (f : CanMessage) (fs : List CanMessage) (p : Bytes)
    → Accepted f.arbitration_id (f ∷ fs) p
    → reassemble (f ∷ fs) ≡ ok p
unfolding reassemble
Accepted-reassemble f fs p a = rw (a.checked, check_sequences_range _ a.counted) a.joined

check_frames-head :
    (arb_id : ℕ) (g : CanMessage) (gs : List CanMessage)
    → check_frames arb_id (g ∷ gs) ≡ ok tt
    → g.arbitration_id ≡ arb_id
unfolding check_frames
check_frames-head arb_id g gs h = ground arith

Accepted-permᴰ :
    {arb_id : ℕ} {l r : List CanMessage} {p : Bytes}
    → Permᴰ l r
    → Accepted arb_id l p
    → Accepted arb_id r p
Accepted-permᴰ {arb_id} {l} {r} {p} d a =
    let ordered = sort_frames-permᴰ_self l in
    let apart : IsDistinct l =
      IsDistinct-permᴰ (permᴰ_symm ordered) (range_from-IsDistinct 0 _ _ a.counted) in
    let same : sort_frames l ≡ sort_frames r = sort_frames-permᴰ d apart in
    record {
      checked = check_frames-permᴰ arb_id d a.checked;
      counted = rw same at a.counted;
      joined = rw same at a.joined;
    }

Result-set : IsSet (Result Bytes)
Result-set = hlevel

reassemble-permᴰ :
    (gs fs : List CanMessage) (p : Bytes)
    → Permᴰ fs gs
    → reassemble fs ≡ ok p
    → reassemble gs ≡ ok p
reassemble-permᴰ gs [] p d h = unfold reassemble in cc
reassemble-permᴰ [] (f ∷ fs) p d h = absurd (omega (arith, length-permᴰ d))
reassemble-permᴰ (g ∷ gs) (f ∷ fs) p d h =
    let a = Accepted-permᴰ d (reassemble-Accepted f fs p h) in
    Accepted-reassemble g gs p (rw (sym (check_frames-head _ g gs a.checked)) at a)

-- The frames of a message may arrive in any order: whatever `reassemble` returns for them in one
-- order, it returns for them in every order.
pub reassemble-perm :
    (gs fs : List CanMessage) (p : Bytes) → Perm gs fs → reassemble fs ≡ ok p → reassemble gs ≡ ok p
reassemble-perm gs fs p d h =
    ∥∥₁_elim d (Result-set _ _) (λ e. reassemble-permᴰ gs fs p (permᴰ_symm e) h)
