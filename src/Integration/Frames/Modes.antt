-- ===== src/Integration/Frames/Modes.antt =====
-- The rows of the attack modes do not disturb one another.
use batt_lock.Base.{
  ◌≡◌, refl, ap, sym, ◌∙◌, Bool, Bool-cases, inl, inr, true, false, if◌then◌else◌, List, [], ◌∷◌,
  Result, ok, err, >>=-eq-ok, arith,
}
use mathlib.Core.Path.{subst}
use batt_lock.Base.Int.{ℤ, eq_ℤ, eq_ℤ_iff}
use batt_lock.Base.Float.{FloatOps}
use batt_lock.Crypto.Counters.{ReplayProtection}
use batt_lock.Integration.Frames.{
  Row, NumberOps, Frame, Verified, ModeResults, find_mode, put_mode, check_window, read_row,
  verify_frame, verify_rows, group,
}

find_mode-put_mode :
    (m n : ℤ) (r : ReplayProtection) (modes : ModeResults)
    → find_mode m (put_mode n r modes) ≡ (if eq_ℤ n m then r else find_mode m modes)
unfolding find_mode put_mode
find_mode-put_mode m n r [] = refl
find_mode-put_mode m n r ((k, s) ∷ modes) = ground (arith, find_mode-put_mode m n r modes)

module _ {F : Type 0} (ops : FloatOps F) (numbers : NumberOps F) where
  is_of : ℤ → Result (Frame F) → Bool
  is_of m (ok frame) = eq_ℤ frame.mode m
  is_of m (err e) = false

  -- The rows of one mode.
  unfoldable pub rows_of : ℤ → List Row → List Row
  unfolding is_of
  rows_of m [] = []
  rows_of m (row ∷ rows) =
      if is_of m (read_row ops numbers row) then row ∷ rows_of m rows else rows_of m rows

  kept_row :
      (m : ℤ) (row : Row) (rows : List Row) (modes other other' : ModeResults) (frame : Frame F)
      (rest : List (Verified F))
      → read_row ops numbers row ≡ ok frame
      → eq_ℤ frame.mode m ≡ true
      → find_mode frame.mode modes ≡ find_mode frame.mode other
      → verify_rows ops numbers (rows_of m rows) (verify_frame ops numbers frame other).1
        ≡ ok (group m rest, other')
      → verify_rows ops numbers (rows_of m (row ∷ rows)) other
        ≡ ok (group m ((verify_frame ops numbers frame modes).0 ∷ rest), other')
  unfolding verify_rows rows_of group verify_frame
  kept_row m row rows modes other other' frame rest read own same ih =
      rw (read, own, read, same, ih) refl

  dropped_row :
      (m : ℤ) (row : Row) (rows : List Row) (modes other other' : ModeResults) (frame : Frame F)
      (rest : List (Verified F))
      → read_row ops numbers row ≡ ok frame
      → eq_ℤ frame.mode m ≡ false
      → verify_rows ops numbers (rows_of m rows) other ≡ ok (group m rest, other')
      → verify_rows ops numbers (rows_of m (row ∷ rows)) other
        ≡ ok (group m ((verify_frame ops numbers frame modes).0 ∷ rest), other')
  unfolding rows_of group verify_frame
  dropped_row m row rows modes other other' frame rest read alien ih = rw (read, alien, ih) refl

  find_mode-verify_frame :
      (m : ℤ) (frame : Frame F) (modes other : ModeResults)
      → eq_ℤ frame.mode m ≡ true
      → find_mode frame.mode modes ≡ find_mode frame.mode other
      → find_mode m (verify_frame ops numbers frame modes).1
        ≡ find_mode m (verify_frame ops numbers frame other).1
  unfolding verify_frame
  find_mode-verify_frame m frame modes other own same =
      let r = (check_window frame.counter (find_mode frame.mode modes)).1 in
      let r' = (check_window frame.counter (find_mode frame.mode other)).1 in
      let joined : (if eq_ℤ frame.mode m then r else find_mode m modes)
          ≡ (if eq_ℤ frame.mode m then r' else find_mode m other) =
        rw (own, same) refl in
      find_mode-put_mode m frame.mode r modes
      ∙ joined
      ∙ sym (find_mode-put_mode m frame.mode r' other)

  find_mode-alien :
      (m : ℤ) (frame : Frame F) (modes : ModeResults)
      → eq_ℤ frame.mode m ≡ false
      → find_mode m (verify_frame ops numbers frame modes).1 ≡ find_mode m modes
  unfolding verify_frame
  find_mode-alien m frame modes alien = rw (find_mode-put_mode m frame.mode, alien) refl

  verify_rows-rows_of :
      (m : ℤ) (rows : List Row) (modes modes' other : ModeResults) (outs : List (Verified F))
      → verify_rows ops numbers rows modes ≡ ok (outs, modes')
      → find_mode m modes ≡ find_mode m other
      → (other' : ModeResults) × (verify_rows ops numbers (rows_of m rows) other
          ≡ ok (group m outs, other'))
  unfolding verify_rows rows_of group
  verify_rows-rows_of m [] modes modes' other outs h same =
      let none_left : [] ≡ outs = cc h in
      (other, ap (λ (l : List (Verified F)). ok (group m l, other)) none_left)
  verify_rows-rows_of m (row ∷ rows) modes modes' other outs h same =
      let (frame, read, r) = >>=-eq-ok (read_row ops numbers row) _ h in
      let ((rest, modes''), e, q) =
        >>=-eq-ok (verify_rows ops numbers rows (verify_frame ops numbers frame modes).1) _ r in
      let whole : (verify_frame ops numbers frame modes).0 ∷ rest ≡ outs = cc q in
      elim (Bool-cases (eq_ℤ frame.mode m)) [
        | inl own ↦
            let agree : find_mode frame.mode modes ≡ find_mode frame.mode other =
              subst (λ k. find_mode k modes ≡ find_mode k other)
                (sym ((eq_ℤ_iff frame.mode m).0 own)) same in
            let (other', ih) =
              verify_rows-rows_of m rows (verify_frame ops numbers frame modes).1 modes''
                (verify_frame ops numbers frame other).1 rest e
                (find_mode-verify_frame m frame modes other own agree) in
            (
              other',
              kept_row m row rows modes other other' frame rest read own agree ih
                  ∙ ap (λ (l : List (Verified F)). ok (group m l, other')) whole,
            )
        | inr alien ↦
            let (other', ih) =
              verify_rows-rows_of m rows (verify_frame ops numbers frame modes).1 modes'' other rest
                e (find_mode-alien m frame modes alien ∙ same) in
            (
              other',
              dropped_row m row rows modes other other' frame rest read alien ih
                  ∙ ap (λ (l : List (Verified F)). ok (group m l, other')) whole,
            )
      ]

  -- The results of the rows of one mode, among the rows of all modes in whatever order they come, are those
  -- of checking the rows of that mode alone.
  pub group-verify_rows :
      (m : ℤ) (rows : List Row) (modes : ModeResults) (outs : List (Verified F))
      → verify_rows ops numbers rows [] ≡ ok (outs, modes)
      → (own : ModeResults) × (verify_rows ops numbers (rows_of m rows) [] ≡ ok (group m outs, own))
  group-verify_rows m rows modes outs h = verify_rows-rows_of m rows [] modes [] outs h refl
