-- ===== src/Can/Transport/RoundTrip.antt =====
-- `reassemble` undoes `fragment`.
use mathlib.Core.List.{Perm}
use batt_lock.Base.{
  ℕ, zero, suc, ◌≡◌, refl, sym, ap, ◌∙◌, ◌-◌, ◌*◌, ◌≤◌, ◌<◌, leb, ltb, List, [], ◌∷◌, ◌++◌, map,
  length, take, drop, All, ok, arith, length-drop, append_assoc, append-nil, take-append-drop,
  take_all, true, false, Bool-cases, inl, inr,
}
use batt_lock.Base.Bits.{header_bytes}
use batt_lock.Can.Message.{Bytes, CanMessage}
use batt_lock.Can.Transport.{
  fragment, reassemble, bytes, sequence, range_from, max_payload, check_frames, sort_frames,
  insert_frame, extend, join_frames,
}
use batt_lock.Can.Transport.Order.{Accepted-reassemble, reassemble-perm}
use batt_lock.Can.Transport.Fragment.{
  continuations, rounds, first_frame, frames_of, fragment-frames_of, fragment_too_long, IsFrameOf,
  frames_of-IsFrameOf, sequence-frames_of,
}

length-range_from : (s n : ℕ) → length (range_from s n) ≡ n
length-range_from s zero = refl
length-range_from s (suc n) = ap suc (length-range_from (suc s) n)

counted_self : (n : ℕ) (xs : List ℕ) → xs ≡ range_from 0 n → xs ≡ range_from 0 (length xs)
counted_self n xs e = e ∙ ap (range_from 0) (sym (ap length e ∙ length-range_from 0 n))

check_frames-ok : (id : ℕ) (l : List CanMessage) → All (IsFrameOf id) l → check_frames id l ≡ ok tt
unfolding check_frames
check_frames-ok id [] h = refl
check_frames-ok id (f ∷ fs) h = ground (arith, check_frames-ok id fs h.1)

insert_frame-first :
    (f : CanMessage) (s n : ℕ) (l : List CanMessage)
    → sequence f < s
    → map sequence l ≡ range_from s n
    → insert_frame f l ≡ f ∷ l
unfolding insert_frame
insert_frame-first f s n [] h e = refl
insert_frame-first f s zero (g ∷ l) h e = cc
insert_frame-first f s (suc n) (g ∷ l) h e =
    let below : leb (sequence f) (sequence g) ≡ true = ground arith in rw below

-- Frames in the order of their sequence bytes are left in it.
sort_frames-counted :
    (s n : ℕ) (l : List CanMessage) → map sequence l ≡ range_from s n → sort_frames l ≡ l
unfolding sort_frames
sort_frames-counted s n [] e = refl
sort_frames-counted s zero (f ∷ l) e = cc
sort_frames-counted s (suc n) (f ∷ l) e =
    ap (insert_frame f) (sort_frames-counted (suc s) n l tail)
    ∙ insert_frame-first f (suc s) n l (ground arith) tail
  where
    tail : map sequence l ≡ range_from (suc s) n
    tail = cc

extend-continuations :
    (k id seq : ℕ) (rest payload : Bytes)
    → length rest ≤ 7 * k
    → extend payload (continuations k id seq rest) ≡ payload ++ rest
unfolding extend continuations
extend-continuations zero id seq [] payload h = sym (append-nil payload)
extend-continuations zero id seq (x ∷ rest) payload h = absurd (omega arith)
extend-continuations (suc k) id seq rest payload h =
    extend-continuations k id (suc seq) (drop 7 rest) (payload ++ take 7 rest)
      (omega (arith, length-drop 7 rest))
    ∙ append_assoc payload (take 7 rest) (drop 7 rest)
    ∙ ap (◌++◌ payload) (take-append-drop 7 rest)

join_frames-frames_of :
    (id : ℕ) (p : Bytes) → length p ≤ max_payload → join_frames (frames_of id p) ≡ ok p
unfolding join_frames frames_of first_frame
join_frames-frames_of id p h =
    let whole : extend (take 5 p) (continuations (rounds (length p - 5)) id 1 (drop 5 p)) ≡ p =
      extend-continuations (rounds (length p - 5)) id 1 (drop 5 p) (take 5 p)
        (omega (arith, length-drop 5 p))
      ∙ take-append-drop 5 p in
    let enough : ltb (length p) (length p) ≡ false = ground arith in
    let header : ltb (length (first_frame id p).content) 3 ≡ false = ground arith in
    rw (header, whole, header_bytes (length p) (omega arith), enough)
      (ap ok (take_all (length p) p (omega arith)))

-- Frames of a message that fits, in the order in which they were written, give the message back.
reassemble-frames_of :
    (id : ℕ) (p : Bytes) → length p ≤ max_payload → reassemble (frames_of id p) ≡ ok p
unfolding frames_of first_frame
reassemble-frames_of id p h =
    let counted = sequence-frames_of id p in
    let n = suc (rounds (length p - 5)) in
    let ordered = sort_frames-counted 0 n (frames_of id p) counted in
    Accepted-reassemble (first_frame id p) _ p (record {
      checked = check_frames-ok id (frames_of id p) (frames_of-IsFrameOf id p);
      counted = rw ordered (counted_self n _ counted);
      joined = rw ordered (join_frames-frames_of id p h);
    })

-- Whatever `fragment` writes for a payload, `reassemble` reads back, in whatever order the
-- frames arrive.
pub reassemble-fragment :
    (id : ℕ) (p : Bytes) (fs gs : List CanMessage)
    → fragment id (bytes p) ≡ ok fs
    → Perm gs fs
    → reassemble gs ≡ ok p
reassemble-fragment id p fs gs h d = elim (Bool-cases (leb (length p) max_payload)) [
  | inl fits ↦
      let short : length p ≤ max_payload = ground arith in
      let written : fs ≡ frames_of id p = cc (fragment-frames_of id p short) in
      reassemble-perm gs fs p d (rw written (reassemble-frames_of id p short))
  | inr long ↦ cc (fragment_too_long id p (ground arith))
]
