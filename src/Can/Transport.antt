-- ===== src/Can/Transport.antt =====
-- `can/transport.py`: fragmentation of payloads into frames of at most 8 bytes, reassembly, and
-- the in-memory bus.
pub mod Order
pub mod Fragment
pub mod RoundTrip
pub mod Weight
pub mod Loss
pub mod Bus
pub mod Sound
use batt_lock.Base.{
  ℕ, zero, suc, ◌+◌, ◌*◌, ◌/◌, ◌==◌, if◌then◌else◌, ltb, leb, bit_and, bit_or, Bool, true, false,
  not, List, [], ◌∷◌, ◌++◌, map, length, take, drop, slice, get_or, contains, list_eq, Option, none,
  some, Result, ok, err, raise_if, ◌>>=◌, ◌>>◌, value_error, type_error, index_error, no_fuel,
  payload_too_long, no_frames, inconsistent_id, empty_data, oversized_frame, duplicate_sequence,
  missing_sequence, short_header, incomplete_message, byte_out_of_range,
}
use batt_lock.Can.Message.{Bytes, CanMessage, can_max_data}

abbrev pub first_frame_payload : ℕ
first_frame_payload = 5

abbrev pub cont_frame_payload : ℕ
cont_frame_payload = 7

abbrev pub max_sequence : ℕ
max_sequence = 255

abbrev pub max_payload : ℕ
max_payload = first_frame_payload + max_sequence * cont_frame_payload

-- What a caller may pass as `payload`, as `isinstance` tells it apart.
pub data Payload : Type 0 where
  bytes bytearray : Bytes → Payload
  other : Payload

-- `bytes([…])`, which refuses a value that does not fit a byte.
unfoldable pub bytes_of : List ℕ → Result Bytes
bytes_of [] = ok []
bytes_of (x ∷ xs) = do
  raise_if (leb 256 x) (value_error byte_out_of_range)
  rest ← bytes_of xs
  ok (x ∷ rest)

-- The `while` of `fragment`.
continuation_loop : ℕ → ℕ → Bytes → ℕ → ℕ → List CanMessage → Result (List CanMessage)
continuation_loop zero arbitration_id payload offset seq frames = err no_fuel
continuation_loop (suc fuel) arbitration_id payload offset seq frames =
    let chunk = slice offset (offset + cont_frame_payload) payload in
    let round = do
      header ← bytes_of (seq ∷ [])
      let frame : CanMessage = record { arbitration_id = arbitration_id; content = header ++ chunk }
      continuation_loop fuel arbitration_id payload (offset + cont_frame_payload) (seq + 1)
          (frames ++ frame ∷ [])
    in if ltb offset (length payload) then round else ok frames

fragment_bytes : ℕ → Bytes → Result (List CanMessage)
unfolding continuation_loop bytes_of
fragment_bytes arbitration_id payload = do
  let total_len = length payload
  raise_if (ltb max_payload total_len) (value_error payload_too_long)
  header ← bytes_of (0 ∷ bit_and total_len 0xff ∷ bit_and (total_len / 256) 0xff ∷ [])
  let first : CanMessage = record {
    arbitration_id = arbitration_id;
    content = header ++ take first_frame_payload payload;
  }
  continuation_loop (suc total_len) arbitration_id payload first_frame_payload 1 (first ∷ [])

unfoldable pub fragment : ℕ → Payload → Result (List CanMessage)
unfolding fragment_bytes
fragment arbitration_id (bytes payload) = fragment_bytes arbitration_id payload
fragment arbitration_id (bytearray payload) = fragment_bytes arbitration_id payload
fragment arbitration_id other = err type_error

-- The `for` of `reassemble`.
unfoldable pub check_frames : ℕ → List CanMessage → Result (Unit {0})
check_frames arb_id [] = ok tt
check_frames arb_id (f ∷ fs) = do
  raise_if (not (f.arbitration_id == arb_id)) (value_error inconsistent_id)
  raise_if (length f.content == 0) (value_error empty_data)
  raise_if (ltb can_max_data (length f.content)) (value_error oversized_frame)
  check_frames arb_id fs

-- `f.data[0]`, which the loop above has found to be there.
unfoldable pub sequence : CanMessage → ℕ
sequence f = get_or f.content 0 0

unfoldable pub insert_frame : CanMessage → List CanMessage → List CanMessage
insert_frame f [] = f ∷ []
insert_frame f (g ∷ gs) =
    if leb (sequence f) (sequence g) then f ∷ g ∷ gs else g ∷ insert_frame f gs

-- `sorted(frames, key=lambda f: f.data[0])`: frames of one key keep their order.
unfoldable pub sort_frames : List CanMessage → List CanMessage
sort_frames [] = []
sort_frames (f ∷ fs) = insert_frame f (sort_frames fs)

abbrev pub range_from : ℕ → ℕ → List ℕ
range_from s zero = []
range_from s (suc n) = s ∷ range_from (suc s) n

-- The elements of `set(xs)`.
distinct : List ℕ → List ℕ
distinct [] = []
distinct (x ∷ xs) = if contains xs x then distinct xs else x ∷ distinct xs

unfoldable pub check_sequences : List ℕ → Result (Unit {0})
unfolding distinct
check_sequences sequences = raise_if (not (list_eq sequences (range_from 0 (length sequences)))) (
    value_error (
      if not (length (distinct sequences) == length sequences)
      then duplicate_sequence
      else missing_sequence))

extend : Bytes → List CanMessage → Bytes
extend payload [] = payload
extend payload (frame ∷ frames) = extend (payload ++ drop 1 frame.content) frames

-- From `first = ordered[0]` on.
unfoldable pub join_frames : List CanMessage → Result Bytes
unfolding extend
join_frames [] = err index_error
join_frames (first ∷ rest) = do
  raise_if (ltb (length first.content) 3) (value_error short_header)
  let total_len = bit_or (get_or first.content 1 0) (get_or first.content 2 0 * 256)
  let payload = extend (drop 3 first.content) rest
  raise_if (ltb (length payload) total_len) (value_error incomplete_message)
  ok (take total_len payload)

unfoldable pub reassemble : List CanMessage → Result Bytes
reassemble [] = err (value_error no_frames)
reassemble (f ∷ fs) = do
  check_frames f.arbitration_id (f ∷ fs)
  let ordered = sort_frames (f ∷ fs)
  check_sequences (map sequence ordered)
  join_frames ordered

-- `CANBus`, a queue.
pub record CanBus : Type 0 where
  pub queue : List CanMessage

abbrev pub new_bus : CanBus
new_bus = record { queue = [] }

unfoldable pub send : CanMessage → CanBus → CanBus
send message bus = record { queue = bus.queue ++ message ∷ [] }

unfoldable pub receive : CanBus → Option CanMessage × CanBus
receive bus = elim bus.queue [
  | [] ↦ (none, bus)
  | message ∷ queue ↦ (some message, record { queue = queue })
]
