-- ===== src/Integration/Frames/Report/Keys.antt =====
-- The modes of the rows, and the modes of the report.
use batt_lock.Base.{
  ℕ, zero, suc, ◌<◌, ◌≡◌, ◌≢◌, refl, sym, Bool-cases, inl, inr, List, [], ◌∷◌, length, All, ok,
  >>=-eq-ok, arith,
}
use mathlib.Core.Path.{subst}
use batt_lock.Base.Texts.{Text}
use batt_lock.Base.Int.{ℤ, pos, negsuc, leb_ℤ, eq_ℤ, eq_ℤ_iff, ◌≤ℤ◌, ◌<ℤ◌}
use batt_lock.Base.Float.{FloatOps}
use batt_lock.Crypto.Counters.{ReplayProtection}
use batt_lock.Integration.Frames.{
  Row, NumberOps, Verified, ModeResults, put_mode, find_mode, check_window, read_row, verify_frame,
  verify_rows, group,
}
use batt_lock.Integration.Frames.Report.{described, entry, sorted_modes, insert_mode}

pub described_within :
    (m : ℤ) (ts : List Text) (t : Text)
    → described m ts ≡ ok t
    → (pos 0 ≤ℤ m) × (m <ℤ pos (length ts))
unfolding described
described_within (negsuc n) ts t h = cc
described_within (pos n) ts t h = (omega arith, go n ts h)
  where
    go : (n : ℕ) (ts : List Text) → entry n ts ≡ ok t → pos n <ℤ pos (length ts)
    go n [] h = cc
    go zero (u ∷ ts) h = omega arith
    go (suc n) (u ∷ ts) h = omega (arith, go n ts h)

module _ (P : ℤ → Type 0) where
  abbrev pub Keys : ModeResults → Type 0
  Keys modes = All (λ (e : ℤ × ReplayProtection). P e.0) modes

  Keys-insert_mode : (m : ℤ) (ns : List ℤ) → All P (insert_mode m ns) → P m × All P ns
  unfolding insert_mode
  Keys-insert_mode m [] h = (h.0, tt)
  Keys-insert_mode m (n ∷ ns) h = elim (Bool-cases (leb_ℤ m n)) [
    | inl first ↦ rw first at h
    | inr later ↦
        let k : P n × All P (insert_mode m ns) = rw later at h in
        let (here, rest) = Keys-insert_mode m ns k.1 in (here, (k.0, rest))
  ]

  pub Keys-sorted_modes : (modes : ModeResults) → All P (sorted_modes modes) → Keys modes
  unfolding sorted_modes
  Keys-sorted_modes [] h = tt
  Keys-sorted_modes ((m, r) ∷ modes) h =
      let (here, rest) = Keys-insert_mode m (sorted_modes modes) h in
      (here, Keys-sorted_modes modes rest)

  Keys-put_mode :
      (m : ℤ) (r : ReplayProtection) (modes : ModeResults)
      → Keys (put_mode m r modes)
      → P m × Keys modes
  unfolding put_mode
  Keys-put_mode m r [] h = (h.0, tt)
  Keys-put_mode m r ((n, s) ∷ modes) h = elim (Bool-cases (eq_ℤ n m)) [
    | inl same ↦ let k : P n × Keys modes = rw same at h in (subst P ((eq_ℤ_iff n m).0 same) k.0, k)
    | inr other ↦
        let k : P n × Keys (put_mode m r modes) = rw other at h in
        let (here, rest) = Keys-put_mode m r modes k.1 in (here, (k.0, rest))
  ]

  insert_mode-Keys : (m : ℤ) (ns : List ℤ) → P m → All P ns → All P (insert_mode m ns)
  unfolding insert_mode
  insert_mode-Keys m [] h rest = (h, tt)
  insert_mode-Keys m (n ∷ ns) h (here, rest) = elim (Bool-cases (leb_ℤ m n)) [
    | inl first ↦ rw first (h, (here, rest))
    | inr later ↦ rw later (here, insert_mode-Keys m ns h rest)
  ]

  pub sorted_modes-Keys : (modes : ModeResults) → Keys modes → All P (sorted_modes modes)
  unfolding sorted_modes
  sorted_modes-Keys [] h = tt
  sorted_modes-Keys ((m, r) ∷ modes) (here, rest) =
      insert_mode-Keys m (sorted_modes modes) here (sorted_modes-Keys modes rest)

  put_mode-Keys :
      (m : ℤ) (r : ReplayProtection) (modes : ModeResults)
      → P m
      → Keys modes
      → Keys (put_mode m r modes)
  unfolding put_mode
  put_mode-Keys m r [] h rest = (h, tt)
  put_mode-Keys m r ((n, s) ∷ modes) h (here, rest) = elim (Bool-cases (eq_ℤ n m)) [
    | inl same ↦ rw same (here, rest)
    | inr other ↦ rw other (here, put_mode-Keys m r modes h rest)
  ]

  module _ {F : Type 0} (ops : FloatOps F) (numbers : NumberOps F) where
    pub verify_rows-Keys :
        (rows : List Row) (modes modes' : ModeResults) (outs : List (Verified F))
        → verify_rows ops numbers rows modes ≡ ok (outs, modes')
        → Keys modes
        → All (λ (v : Verified F). P v.mode) outs
        → Keys modes'
    unfolding verify_rows verify_frame
    verify_rows-Keys [] modes modes' outs h keys all =
        let same : modes ≡ modes' = cc h in subst Keys same keys
    verify_rows-Keys (row ∷ rows) modes modes' outs h keys all =
        let (frame, read, r) = >>=-eq-ok (read_row ops numbers row) _ h in
        let replay = (check_window frame.counter (find_mode frame.mode modes)).1 in
        let ((rest, last), e, q) =
          >>=-eq-ok (verify_rows ops numbers rows (put_mode frame.mode replay modes)) _ r in
        let same : last ≡ modes' = cc q in
        let whole : outs ≡ (verify_frame ops numbers frame modes).0 ∷ rest = cc q in
        let (here, later) = subst (All (λ (v : Verified F). P v.mode)) whole all in
        subst Keys same (
          verify_rows-Keys rows (put_mode frame.mode replay modes) last rest e
            (put_mode-Keys frame.mode replay modes here keys) later)

    pub Keys-verify_rows :
        (rows : List Row) (modes modes' : ModeResults) (outs : List (Verified F))
        → verify_rows ops numbers rows modes ≡ ok (outs, modes')
        → Keys modes'
        → Keys modes × All (λ (v : Verified F). P v.mode) outs
    unfolding verify_rows verify_frame
    Keys-verify_rows [] modes modes' outs h keys =
        let same : modes ≡ modes' = cc h in
        let none_left : [] ≡ outs = cc h in
        (subst Keys (sym same) keys, subst (All (λ (v : Verified F). P v.mode)) none_left tt)
    Keys-verify_rows (row ∷ rows) modes modes' outs h keys =
        let (frame, read, r) = >>=-eq-ok (read_row ops numbers row) _ h in
        let replay = (check_window frame.counter (find_mode frame.mode modes)).1 in
        let ((rest, last), e, q) =
          >>=-eq-ok (verify_rows ops numbers rows (put_mode frame.mode replay modes)) _ r in
        let same : last ≡ modes' = cc q in
        let (kept, all) =
          Keys-verify_rows rows (put_mode frame.mode replay modes) last rest e
            (subst Keys (sym same) keys) in
        let (here, before) = Keys-put_mode frame.mode replay modes kept in
        let whole : (verify_frame ops numbers frame modes).0 ∷ rest ≡ outs = cc q in
        (before, subst (All (λ (v : Verified F). P v.mode)) whole (here, all))

pub described_known :
    (m : ℤ) (ts : List Text)
    → (pos 0 ≤ℤ m) × (m <ℤ pos (length ts))
    → (t : Text) × (described m ts ≡ ok t)
unfolding described
described_known (negsuc n) ts (low, high) = absurd (omega arith)
described_known (pos n) ts (low, high) = go n ts (omega arith)
  where
    go : (n : ℕ) (ts : List Text) → n < length ts → (t : Text) × (entry n ts ≡ ok t)
    go n [] h = absurd (omega arith)
    go zero (u ∷ ts) h = (u, refl)
    go (suc n) (u ∷ ts) h = go n ts (omega arith)

-- A mode that a row has is not empty.
module _ {F : Type 0} where
  group_grows :
      (m : ℤ) (out : Verified F) (outs : List (Verified F))
      → group m outs ≢ []
      → group m (out ∷ outs) ≢ []
  unfolding group
  group_grows m out outs h = elim (Bool-cases (eq_ℤ out.mode m)) [
    | inl same ↦ rw same (λ none_left. cc)
    | inr other ↦ rw other h
  ]

  grown :
      (out : Verified F) (all outs : List (Verified F))
      → All (λ (v : Verified F). group v.mode all ≢ []) outs
      → All (λ (v : Verified F). group v.mode (out ∷ all) ≢ []) outs
  grown out all [] h = tt
  grown out all (v ∷ outs) (here, rest) = (group_grows v.mode out all here, grown out all outs rest)

  pub group_all : (outs : List (Verified F)) → All (λ (v : Verified F). group v.mode outs ≢ []) outs
  unfolding group
  group_all [] = tt
  group_all (out ∷ outs) = (
    rw ((eq_ℤ_iff out.mode out.mode).1 refl) (λ none_left. cc),
    grown out outs outs (group_all outs),
  )

  pub both :
      (P Q : ℤ → Type 0) (outs : List (Verified F))
      → All (λ (v : Verified F). P v.mode) outs
      → All (λ (v : Verified F). Q v.mode) outs
      → All (λ (v : Verified F). P v.mode × Q v.mode) outs
  both P Q [] p q = tt
  both P Q (v ∷ outs) (p, ps) (q, qs) = ((p, q), both P Q outs ps qs)
