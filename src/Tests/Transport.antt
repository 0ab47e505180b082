-- ===== src/Tests/Transport.antt =====
-- The transport at a message of ten bytes.
use batt_lock.Base.{
  ◌+◌, ◌*◌, ◌≡◌, ◌≢◌, ◌⊎◌, ◌≤◌, ◌<◌, refl, List, [], ◌∷◌, All, map, none, some, ok, err,
  value_error, payload_too_long, arith,
}
use mathlib.Core.List.{Perm, Permᴰ}
use batt_lock.Can.Message.{Bytes, CanMessage, nonce_id}
use batt_lock.Can.Transport.{
  sort_frames, insert_frame, check_frames, check_sequences, join_frames, fragment, reassemble,
  bytes, max_payload, sequence, range_from, receive, new_bus,
}
use batt_lock.Can.Transport.Fragment.{fragment_cases, IsFrameOf}
use batt_lock.Can.Transport.RoundTrip.{reassemble-fragment}
use batt_lock.Can.Transport.Loss.{reassemble_lost_frame}
use batt_lock.Can.Transport.Bus.{bus_fifo, send_all, receive_all}
use batt_lock.Can.Transport.Sound.{reassemble_sound}

abbrev ten : Bytes
ten = 1 ∷ 2 ∷ 3 ∷ 4 ∷ 5 ∷ 6 ∷ 7 ∷ 8 ∷ 9 ∷ 10 ∷ []

abbrev first : CanMessage
first = record { arbitration_id = nonce_id; content = 0 ∷ 10 ∷ 0 ∷ 1 ∷ 2 ∷ 3 ∷ 4 ∷ 5 ∷ [] }

abbrev second : CanMessage
second = record { arbitration_id = nonce_id; content = 1 ∷ 6 ∷ 7 ∷ 8 ∷ 9 ∷ 10 ∷ [] }

fragment-ten : fragment nonce_id (bytes ten) ≡ ok (first ∷ second ∷ [])
unfolding fragment
fragment-ten = refl

swapped : Perm (second ∷ first ∷ []) (first ∷ second ∷ [])
swapped = ∣ Permᴰ.swap refl refl ∣₁

reassemble-ten : reassemble (first ∷ second ∷ []) ≡ ok ten
unfolding reassemble sort_frames insert_frame sequence check_frames check_sequences join_frames
reassemble-ten = refl

reassemble-fragment_example : reassemble (second ∷ first ∷ []) ≡ ok ten
reassemble-fragment_example =
    reassemble-fragment nonce_id ten (first ∷ second ∷ []) (second ∷ first ∷ []) fragment-ten
      swapped

fragment_cases_example :
    ((10 ≤ max_payload) × ((fs : List CanMessage) × (fragment nonce_id (bytes ten) ≡ ok fs)))
    ⊎ ((max_payload < 10) × (fragment nonce_id (bytes ten) ≡ err (value_error payload_too_long)))
fragment_cases_example = fragment_cases nonce_id ten

reassemble_lost_frame_example : reassemble (first ∷ []) ≢ ok ten
reassemble_lost_frame_example =
    reassemble_lost_frame nonce_id ten ten (first ∷ []) [] second (omega arith) fragment-ten

reassemble_sound_example :
    All (IsFrameOf nonce_id) (first ∷ second ∷ [])
    × Perm (map sequence (first ∷ second ∷ [])) (range_from 0 2)
    × (10 ≤ 5 + 7 * 1)
reassemble_sound_example = reassemble_sound first (second ∷ []) ten reassemble-ten

bus_fifo_example :
    let (received, bus) = receive_all 2 (send_all (second ∷ []) (record { queue = first ∷ [] })) in
    (received ≡ some first ∷ some second ∷ []) × (receive bus ≡ (none, new_bus))
bus_fifo_example = bus_fifo (first ∷ []) (second ∷ [])
