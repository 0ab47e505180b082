-- ===== src/Can/Transport/Loss.antt =====
-- A message with a frame missing is never taken for a message.
use batt_lock.Base.{
  ℕ, ◌≡◌, ◌≢◌, refl, ap, ◌+◌, ◌-◌, ◌≤◌, ◌<◌, List, [], ◌∷◌, ◌++◌, map, length, drop, All, ok, arith,
  length-append, length-drop,
}
use batt_lock.Base.Bits.{header_bytes}
use batt_lock.Can.Message.{Bytes, CanMessage}
use batt_lock.Can.Transport.{
  reassemble, fragment, bytes, sequence, range_from, max_payload, sort_frames,
}
use batt_lock.Can.Transport.Order.{
  Accepted, reassemble-Accepted, range_from-below, sort_frames-permᴰ_self, All-permᴰ, length-permᴰ,
}
use batt_lock.Can.Transport.Fragment.{
  continuations, rounds, length-continuations, sequence-continuations, fragment-frames_of,
  first_frame, frames_of,
}
use batt_lock.Can.Transport.Weight.{
  weight, weight-permᴰ, weight-append, declared, join_frames-weight, All-remove, All-middle,
  All-map, weight_cons, weight_first, first_frame_full, weight-continuations, continuations-carry,
}

-- Of frames that are accepted, the first after sorting has the sequence byte 0.
sorted_head :
    {id : ℕ} {q : Bytes} (l : List CanMessage)
    → Accepted id l q
    → 1 ≤ length l
    → (g : CanMessage) × (rest : List CanMessage) × (sort_frames l ≡ g ∷ rest) × (sequence g ≡ 0)
sorted_head l a h = go (sort_frames l) refl
  where
    go :
        (s : List CanMessage)
        → sort_frames l ≡ s
        → (g : CanMessage) × (rest : List CanMessage) × (sort_frames l ≡ g ∷ rest)
          × (sequence g ≡ 0)
    go [] e =
        absurd
          (omega (arith, length-permᴰ (sort_frames-permᴰ_self l), ap (length {A = CanMessage}) e))
    go (g ∷ rest) e =
        let c : sequence g ∷ map sequence rest ≡ range_from 0 (length (map sequence (g ∷ rest))) =
          rw e at a.counted in
        (g, rest, e, cc c)

continuations-later :
    (k id : ℕ) (rest : Bytes) → All (λ g. sequence g ≢ 0) (continuations k id 1 rest)
continuations-later k id rest =
    range_from-below 1 k 0 (continuations k id 1 rest) (omega arith)
      (sequence-continuations k id 1 rest)

-- The first frame is lost.
no_first_frame : (k id : ℕ) (rest q : Bytes) → reassemble (continuations k id 1 rest) ≢ ok q
no_first_frame k id rest q h = go (continuations k id 1 rest) refl
  where
    go : (l : List CanMessage) → continuations k id 1 rest ≡ l → ⊥
    go [] e = unfold reassemble in cc (rw e at h)
    go (f ∷ l) e =
        let (g, others, s, z) =
          sorted_head (f ∷ l) (reassemble-Accepted f l q (rw e at h)) (omega arith) in
        let later : All (λ g. sequence g ≢ 0) (f ∷ l) = rw e at (continuations-later k id rest) in
        let moved : All (λ g. sequence g ≢ 0) (g ∷ others) =
          rw s at (All-permᴰ (λ g. sequence g ≢ 0) (sort_frames-permᴰ_self (f ∷ l)) later) in
        moved.0 z

declared-first_frame :
    (id : ℕ) (p : Bytes) → length p ≤ max_payload → declared (first_frame id p) ≡ length p
unfolding declared first_frame
declared-first_frame id p h = header_bytes (length p) (omega arith)

-- Frames of which the one numbered 0 is the first frame of `p`, and that hold too few bytes.
too_light :
    (id : ℕ) (p q : Bytes) (l : List CanMessage)
    → length p ≤ max_payload
    → All (λ g. sequence g ≡ 0 → g ≡ first_frame id p) (first_frame id p ∷ l)
    → All (λ g. 1 ≤ length g.content) (first_frame id p ∷ l)
    → weight (first_frame id p ∷ l) < length p + 3 + length l
    → reassemble (first_frame id p ∷ l) ≢ ok q
too_light id p q l fits first full light h =
    let frames : List CanMessage = first_frame id p ∷ l in
    let a = reassemble-Accepted (first_frame id p) l q h in
    let (g, others, s, z) = sorted_head frames a (omega arith) in
    let d = sort_frames-permᴰ_self frames in
    let moved : All (λ g. sequence g ≡ 0 → g ≡ first_frame id p) (g ∷ others) =
      rw s at (All-permᴰ (λ g. sequence g ≡ 0 → g ≡ first_frame id p) d first) in
    let carried : All (λ g. 1 ≤ length g.content) (g ∷ others) =
      rw s at (All-permᴰ (λ g. 1 ≤ length g.content) d full) in
    omega (
      arith,
      join_frames-weight g others q carried.1 (rw s at a.joined),
      ap declared (moved.0 z),
      declared-first_frame id p fits,
      weight-permᴰ d,
      ap weight s,
      length-permᴰ d,
      ap (length {A = CanMessage}) s,
    )

-- A continuation frame is lost.
no_continuation :
    (id : ℕ) (p q : Bytes) (before after : List CanMessage) (f : CanMessage)
    → length p ≤ max_payload
    → continuations (rounds (length p - 5)) id 1 (drop 5 p) ≡ before ++ f ∷ after
    → reassemble (first_frame id p ∷ before ++ after) ≢ ok q
no_continuation id p q before after f fits e =
    let k = rounds (length p - 5) in
    let later : All (λ g. sequence g ≢ 0) (before ++ f ∷ after) =
      rw e at (continuations-later k id (drop 5 p)) in
    let carried : All (λ g. 2 ≤ length g.content) (before ++ f ∷ after) =
      rw e at (continuations-carry k id 1 (drop 5 p) (omega (arith, length-drop 5 p))) in
    let others = All-remove (λ g. 2 ≤ length g.content) f before after carried in
    too_light id p q (before ++ after) fits
      (
        (λ z. refl),
        All-map (λ g n z. absurd (n z)) (before ++ after) (All-remove _ f before after later),
      )
      (first_frame_full id p, All-map (λ g n. omega arith) (before ++ after) others)
      (omega (
        arith,
        All-middle (λ g. 2 ≤ length g.content) f before after carried,
        ap weight e,
        ap (length {A = CanMessage}) e,
        weight-append before (f ∷ after),
        weight-append before after,
        length-append before (f ∷ after),
        length-append before after,
        weight-continuations k id 1 (drop 5 p) (omega (arith, length-drop 5 p)),
        length-continuations k id 1 (drop 5 p),
        length-drop 5 p,
        weight_first id p,
        weight_cons f after,
        weight_cons (first_frame id p) (before ++ after),
      ))

lost :
    (id : ℕ) (p q : Bytes) (before after : List CanMessage) (f : CanMessage)
    → length p ≤ max_payload
    → frames_of id p ≡ before ++ f ∷ after
    → reassemble (before ++ after) ≢ ok q
unfolding frames_of
lost id p q [] after f fits e =
    let rest : continuations (rounds (length p - 5)) id 1 (drop 5 p) ≡ after = cc in
    rw (← rest) (no_first_frame _ id (drop 5 p) q)
lost id p q (g ∷ before) after f fits e =
    let first : first_frame id p ≡ g = cc in
    let rest : continuations (rounds (length p - 5)) id 1 (drop 5 p) ≡ before ++ f ∷ after = cc in
    rw (← first) (no_continuation id p q before after f fits rest)

-- A message of which one frame, whichever it is, did not arrive is refused: `reassemble` returns
-- no payload for what is left.
pub reassemble_lost_frame :
    (id : ℕ) (p q : Bytes) (before after : List CanMessage) (f : CanMessage)
    → length p ≤ max_payload
    → fragment id (bytes p) ≡ ok (before ++ f ∷ after)
    → reassemble (before ++ after) ≢ ok q
reassemble_lost_frame id p q before after f fits h =
    lost id p q before after f fits (cc (fragment-frames_of id p fits))
