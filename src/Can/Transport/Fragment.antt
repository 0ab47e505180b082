-- ===== src/Can/Transport/Fragment.antt =====
-- What `fragment` writes, frame by frame.
use batt_lock.Base.{
  ℕ, zero, suc, ◌≡◌, ◌⊎◌, leb, refl, ap, ◌∙◌, ◌+◌, ◌-◌, ◌/◌, ◌≤◌, ◌<◌, bit_and, List, [], ◌∷◌, ◌++◌,
  map, length, take, drop, slice, All, ok, err, arith, length-take, append_assoc, append-nil,
  drop-drop, ltb, value_error, payload_too_long, Bool-cases, inl, inr, true, false,
}
use batt_lock.Base.Bits.{low_byte_lt, high_byte_lt}
use batt_lock.Can.Message.{Bytes, CanMessage}
use batt_lock.Can.Transport.{
  bytes_of, continuation_loop, fragment, bytes, sequence, range_from, max_payload,
}

-- `k` continuation frames, numbered from `seq`, that carry `rest`.
unfoldable pub continuations : ℕ → ℕ → ℕ → Bytes → List CanMessage
continuations zero id seq rest = []
continuations (suc k) id seq rest =
    record { arbitration_id = id; content = seq ∷ take 7 rest }
    ∷ continuations k id (suc seq) (drop 7 rest)

-- The continuation frames that `n` bytes need.
abbrev pub rounds : ℕ → ℕ
rounds n = (n + 6) / 7

unfoldable pub first_frame : ℕ → Bytes → CanMessage
first_frame id p = record {
  arbitration_id = id;
  content = 0 ∷ bit_and (length p) 0xff ∷ bit_and (length p / 256) 0xff ∷ take 5 p;
}

-- All frames of one message.
unfoldable pub frames_of : ℕ → Bytes → List CanMessage
unfolding first_frame continuations
frames_of id p = first_frame id p ∷ continuations (rounds (length p - 5)) id 1 (drop 5 p)

bytes_of_byte : (x : ℕ) → x < 256 → bytes_of (x ∷ []) ≡ ok (x ∷ [])
unfolding bytes_of
bytes_of_byte x h = ground arith

continuation_step :
    (k id seq offset : ℕ) (p : Bytes)
    → continuations (suc k) id seq (drop offset p)
      ≡ record { arbitration_id = id; content = seq ∷ slice offset (offset + 7) p }
        ∷ continuations k id (seq + 1) (drop (offset + 7) p)
unfolding continuations
continuation_step k id seq offset p = rw (next, drop-drop 7 offset p, width)
  where
    next : suc seq ≡ seq + 1
    next = omega arith

    width : offset + 7 - offset ≡ 7
    width = omega arith

continuation_loop-continuations :
    (fuel id : ℕ) (p : Bytes) (offset seq : ℕ) (frames : List CanMessage)
    → length p - offset < fuel
    → seq + rounds (length p - offset) ≤ 256
    → continuation_loop fuel id p offset seq frames
      ≡ ok (frames ++ continuations (rounds (length p - offset)) id seq (drop offset p))
unfolding continuation_loop
continuation_loop-continuations zero id p offset seq frames hf hs = absurd (omega arith)
continuation_loop-continuations (suc fuel) id p offset seq frames hf hs =
    elim (Bool-cases (ltb offset (length p))) [
      | inl more ↦
          let left : offset < length p = ground arith in
          let count : rounds (length p - offset) ≡ suc (rounds (length p - (offset + 7))) =
            omega arith in
          rw (more, bytes_of_byte seq (omega arith))
            (continuation_loop-continuations fuel id p (offset + 7) (seq + 1) _ (omega arith)
                (omega arith)
              ∙ rw (count, continuation_step, append_assoc))
      | inr done ↦
          let none_left : rounds (length p - offset) ≡ 0 = ground arith in
          rw (done, none_left) (unfold continuations in rw append-nil)
    ]

header_in_range :
    (n : ℕ)
    → n < 1791
    → bytes_of (0 ∷ bit_and n 0xff ∷ bit_and (n / 256) 0xff ∷ [])
      ≡ ok (0 ∷ bit_and n 0xff ∷ bit_and (n / 256) 0xff ∷ [])
unfolding bytes_of
header_in_range n h = ground (arith, low_byte_lt n h, high_byte_lt n h)

-- A payload of at most 1790 bytes, as `bytes` or as `bytearray`, becomes exactly `frames_of`.
pub fragment-frames_of :
    (id : ℕ) (p : Bytes) → length p ≤ max_payload → fragment id (bytes p) ≡ ok (frames_of id p)
unfolding fragment frames_of
fragment-frames_of id p h =
    let fits : ltb max_payload (length p) ≡ false = ground arith in
    rw (fits, header_in_range (length p) (omega arith))
      (continuation_loop-continuations (suc (length p)) id p 5 1 (first_frame id p ∷ [])
        (omega arith) (omega arith))

-- A longer payload is refused, and so is what is neither `bytes` nor `bytearray`.
pub fragment_too_long :
    (id : ℕ) (p : Bytes)
    → max_payload < length p
    → fragment id (bytes p) ≡ err (value_error payload_too_long)
unfolding fragment
fragment_too_long id p h = let long : ltb max_payload (length p) ≡ true = ground arith in rw long

-- What every frame of a message has: its identifier, 1 to 8 bytes, and it fits a classic CAN frame.
abbrev pub IsFrameOf : ℕ → CanMessage → Type 0
IsFrameOf id f = (f.arbitration_id ≡ id) × (1 ≤ length f.content) × (length f.content ≤ 8)

continuations-IsFrameOf :
    (k id seq : ℕ) (rest : Bytes) → All (IsFrameOf id) (continuations k id seq rest)
unfolding continuations
continuations-IsFrameOf zero id seq rest = tt
continuations-IsFrameOf (suc k) id seq rest = (
  (refl, omega arith, omega (arith, length-take 7 rest)),
  continuations-IsFrameOf k id (suc seq) (drop 7 rest),
)

pub frames_of-IsFrameOf : (id : ℕ) (p : Bytes) → All (IsFrameOf id) (frames_of id p)
unfolding frames_of
frames_of-IsFrameOf id p =
    ((refl, omega arith, omega (arith, length-take 5 p)), continuations-IsFrameOf _ id 1 (drop 5 p))

pub sequence-continuations :
    (k id seq : ℕ) (rest : Bytes) → map sequence (continuations k id seq rest) ≡ range_from seq k
unfolding continuations sequence
sequence-continuations zero id seq rest = refl
sequence-continuations (suc k) id seq rest =
    ap (◌∷◌ seq) (sequence-continuations k id (suc seq) (drop 7 rest))

pub length-continuations : (k id seq : ℕ) (rest : Bytes) → length (continuations k id seq rest) ≡ k
unfolding continuations
length-continuations zero id seq rest = refl
length-continuations (suc k) id seq rest =
    ap suc (length-continuations k id (suc seq) (drop 7 rest))

length-frames_of : (id : ℕ) (p : Bytes) → length (frames_of id p) ≡ suc (rounds (length p - 5))
unfolding frames_of
length-frames_of id p = ap suc (length-continuations (rounds (length p - 5)) id 1 (drop 5 p))

-- The sequence bytes count up from 0.
pub sequence-frames_of :
    (id : ℕ) (p : Bytes)
    → map sequence (frames_of id p) ≡ range_from 0 (suc (rounds (length p - 5)))
unfolding frames_of sequence
sequence-frames_of id p =
    ap (◌∷◌ 0) (sequence-continuations (rounds (length p - 5)) id 1 (drop 5 p))

-- `fragment` returns frames exactly for payloads of at most 1790 bytes: its loop ends, and no
-- sequence number leaves its byte. A longer payload raises ValueError.
pub fragment_cases :
    (id : ℕ) (p : Bytes)
    → ((length p ≤ max_payload) × ((fs : List CanMessage) × (fragment id (bytes p) ≡ ok fs)))
      ⊎ ((max_payload < length p) × (fragment id (bytes p) ≡ err (value_error payload_too_long)))
fragment_cases id p = elim (Bool-cases (leb (length p) max_payload)) [
  | inl fits ↦ inl (ground arith, (frames_of id p, fragment-frames_of id p (ground arith)))
  | inr long ↦ inr (ground arith, fragment_too_long id p (ground arith))
]

-- The frames that `fragment` writes carry the identifier, hold 1 to 8 bytes, and are numbered
-- 0, 1, 2, … without a gap; there are as many as the length asks for, at most 256.
pub fragment_shape :
    (id : ℕ) (p : Bytes) (fs : List CanMessage)
    → fragment id (bytes p) ≡ ok fs
    → All (IsFrameOf id) fs
      × (map sequence fs ≡ range_from 0 (length fs))
      × (length fs ≡ 1 + (length p - 5 + 6) / 7)
      × (length fs ≤ 256)
fragment_shape id p fs h = elim (fragment_cases id p) [
  | inl (fits, _) ↦
      let written : fs ≡ frames_of id p = cc (fragment-frames_of id p fits) in
      let n = suc (rounds (length p - 5)) in
      let count : length (frames_of id p) ≡ n = length-frames_of id p in
      rw written
        (frames_of-IsFrameOf id p, rw count (sequence-frames_of id p), omega arith, omega arith)
  | inr (_, refused) ↦ cc
]
