-- ===== src/Can/Transport/Sound.antt =====
-- What `reassemble` demands of the frames that it accepts.
use mathlib.Core.List.{Perm}
use mathlib.Core.List.Perm
use mathlib.Core.Path.{subst}
use batt_lock.Base.{
  ℕ, suc, ◌≡◌, refl, sym, ap, ◌∙◌, ◌+◌, ◌*◌, ◌≤◌, bit_or, List, [], ◌∷◌, ◌++◌, map, length, drop,
  All, ok, arith, get_or, length-append, length-take, length-drop,
}
use batt_lock.Can.Message.{Bytes, CanMessage}
use batt_lock.Can.Transport.{
  reassemble, sequence, range_from, check_frames, sort_frames, extend, join_frames,
}
use batt_lock.Can.Transport.Order.{
  reassemble-Accepted, sort_frames-permᴰ_self, All-permᴰ, length-permᴰ,
}
use batt_lock.Can.Transport.Fragment.{IsFrameOf}

check_frames_sound :
    (id : ℕ) (l : List CanMessage) → check_frames id l ≡ ok tt → All (IsFrameOf id) l
unfolding check_frames
check_frames_sound id [] h = tt
check_frames_sound id (f ∷ fs) h = (ground arith, check_frames_sound id fs (ground arith))

length-map-sequence : (l : List CanMessage) → length (map sequence l) ≡ length l
length-map-sequence [] = refl
length-map-sequence (f ∷ l) = ap suc (length-map-sequence l)

length-extend_le :
    (id : ℕ) (payload : Bytes) (l : List CanMessage)
    → All (IsFrameOf id) l
    → length (extend payload l) ≤ length payload + 7 * length l
unfolding extend
length-extend_le id payload [] h = omega arith
length-extend_le id payload (f ∷ l) h = omega (
  arith,
  length-extend_le id (payload ++ drop 1 f.content) l h.1,
  length-append payload (drop 1 f.content),
  length-drop 1 f.content,
)

join_frames-length :
    (id : ℕ) (l : List CanMessage) (p : Bytes)
    → All (IsFrameOf id) l
    → join_frames l ≡ ok p
    → length p + 2 ≤ 7 * length l
unfolding join_frames
join_frames-length id [] p h e = cc
join_frames-length id (f ∷ l) p h e = ground (
  arith,
  length-extend_le id (drop 3 f.content) l h.1,
  length-drop 3 f.content,
  length-take (bit_or (get_or f.content 1 0) (get_or f.content 2 0 * 256))
      (extend (drop 3 f.content) l),
)

-- Frames from which `reassemble` returns a payload all carry one identifier and hold 1 to 8 bytes;
-- their sequence bytes are exactly 0, 1, … N - 1 in some order, so none is missing or
-- repeated; and the payload has no more bytes than N frames can carry.
pub reassemble_sound :
    (f : CanMessage) (fs : List CanMessage) (p : Bytes)
    → reassemble (f ∷ fs) ≡ ok p
    → All (IsFrameOf f.arbitration_id) (f ∷ fs)
      × Perm (map sequence (f ∷ fs)) (range_from 0 (length (f ∷ fs)))
      × (length p ≤ 5 + 7 * length fs)
reassemble_sound f fs p h =
    let a = reassemble-Accepted f fs p h in
    let d = sort_frames-permᴰ_self (f ∷ fs) in
    let checked = check_frames_sound f.arbitration_id (f ∷ fs) a.checked in
    let moved = All-permᴰ (IsFrameOf f.arbitration_id) d checked in
    let size : length (map sequence (sort_frames (f ∷ fs))) ≡ length (f ∷ fs) =
      length-map-sequence (sort_frames (f ∷ fs)) ∙ sym (length-permᴰ d) in
    (
      checked,
      subst (Perm (map sequence (f ∷ fs))) (a.counted ∙ ap (range_from 0) size)
          (Perm.map sequence ∣ d ∣₁),
      omega (
        arith,
        join_frames-length f.arbitration_id (sort_frames (f ∷ fs)) p moved a.joined,
        length-permᴰ d,
      ),
    )
