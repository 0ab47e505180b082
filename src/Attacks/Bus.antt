-- ===== src/Attacks/Bus.antt =====
-- The attacks that hold, drop or repeat frames: `attacks/replay_attack.py`, `delay_attack.py`,
-- `suspension_attack.py`, `dos_attack.py`, `spoofing_attack.py` and `session_hijack_attack.py`.
use batt_lock.Base.{
  ℕ, ◌==◌, ◌≡◌, sym, ◌∙◌, not, Bool, if◌then◌else◌, List, [], ◌∷◌, ◌++◌, append_assoc, append-nil,
  replicate, Option, none, some, Result, ok, err, ◌>>=◌, value_error, runtime_error,
  not_session_frame, no_session_captured,
}
use mathlib.Core.List.{reverse}
use batt_lock.Base.Texts.{Text}
use batt_lock.Base.Utf8.{encode}
use batt_lock.Can.Message.{CanMessage, auth_request_id, session_id_id}

-- `ReplayAttack`, and the part of `MitMAttack` that captures: the frame, or None.
pub record Capture : Type 0 where
  pub captured_message : Option CanMessage

abbrev pub new_capture : Capture
new_capture = record { captured_message = none }

unfoldable pub capture : CanMessage → Capture → Capture
capture message attack = record { captured_message = some message }

unfoldable pub replay : Capture → Option CanMessage
replay attack = attack.captured_message

-- `SuspensionAttack.block`
unfoldable pub block : CanMessage → Option CanMessage
block message = none

-- `DoSAttack.flood`: 1000 frames b"SPAM", whatever count is asked for.
unfoldable pub flood : ℕ → List CanMessage
flood count = replicate 1000 (record { arbitration_id = 0x7ff; content = 83 ∷ 80 ∷ 65 ∷ 77 ∷ [] })

-- The data is b"FAKE_BATTERY".
unfoldable pub create_fake_identity : CanMessage
create_fake_identity = record {
  arbitration_id = auth_request_id;
  content = 70 ∷ 65 ∷ 75 ∷ 69 ∷ 95 ∷ 66 ∷ 65 ∷ 84 ∷ 84 ∷ 69 ∷ 82 ∷ 89 ∷ [];
}

pub record DelayAttack : Type 0 where
  pub buffer : List CanMessage

abbrev pub new_delay : DelayAttack
new_delay = record { buffer = [] }

unfoldable pub intercept : CanMessage → DelayAttack → DelayAttack
intercept message attack = record { buffer = attack.buffer ++ message ∷ [] }

-- `messages.pop()` of a list that is not empty: the last one goes.
abbrev pub drop_last_of : List CanMessage → List CanMessage
drop_last_of [] = []
drop_last_of (m ∷ []) = []
drop_last_of (m ∷ n ∷ ms) = m ∷ drop_last_of (n ∷ ms)

unfoldable pub release_all : Bool → Bool → DelayAttack → List CanMessage × DelayAttack
release_all reversed drop_last attack =
    let messages = if drop_last then drop_last_of attack.buffer else attack.buffer in
    (if reversed then reverse messages else messages, new_delay)

unfoldable pub release_one : DelayAttack → Option CanMessage × DelayAttack
release_one attack = elim attack.buffer [
  | [] ↦ (none, attack)
  | m ∷ ms ↦ (some m, record { buffer = ms })
]

unfoldable pub clear : DelayAttack → DelayAttack
clear attack = new_delay

pub record SessionHijackAttack : Type 0 where
  pub captured_session : Option CanMessage

abbrev pub new_hijack : SessionHijackAttack
new_hijack = record { captured_session = none }

unfoldable pub capture_session :
    CanMessage → SessionHijackAttack → Result (Unit {0}) × SessionHijackAttack
capture_session message attack =
    if not (message.arbitration_id == session_id_id)
    then (err (value_error not_session_frame), attack)
    else (ok tt, record { captured_session = some message })

unfoldable pub replay_session : SessionHijackAttack → Result CanMessage
replay_session attack = elim attack.captured_session [
  | none ↦ err (runtime_error no_session_captured)
  | some message ↦ ok message
]

unfoldable pub create_fake_session : Text → Result CanMessage
create_fake_session session_id = do
  payload ← encode session_id
  ok (record { arbitration_id = session_id_id; content = payload })

-- Frames in a row are held.
unfoldable pub intercept_all : List CanMessage → DelayAttack → DelayAttack
intercept_all [] attack = attack
intercept_all (m ∷ ms) attack = intercept_all ms (intercept m attack)

buffer-intercept_all :
    (ms : List CanMessage) (attack : DelayAttack)
    → (intercept_all ms attack).buffer ≡ attack.buffer ++ ms
unfolding intercept_all intercept
buffer-intercept_all [] attack = sym (append-nil attack.buffer)
buffer-intercept_all (m ∷ ms) attack =
    buffer-intercept_all ms (intercept m attack) ∙ append_assoc attack.buffer (m ∷ []) ms

-- Frames that were held are released all at once in the order in which they came, or in the opposite
-- order, without the last if that is dropped, and none is held afterwards.
pub release_all-intercept_all :
    (reversed drop_last : Bool) (ms : List CanMessage)
    → let messages = if drop_last then drop_last_of ms else ms in
      release_all reversed drop_last (intercept_all ms new_delay)
      ≡ (if reversed then reverse messages else messages, new_delay)
unfolding release_all
release_all-intercept_all reversed drop_last ms = rw (buffer-intercept_all ms new_delay)
