-- ===== src/Tests/Protocol.antt =====
-- The protocol's state machine after a handshake, and the session manager with one session.
use batt_lock.Base.{◌≡◌, refl, true, List, [], ◌∷◌}
use batt_lock.Base.Texts.{Text}
use batt_lock.Protocol.StateMachine.{
  Call, hello, restart, challenge, call, run, new_machine, telemetry_allowed, call,
}
use mathlib.Core.List.{Sublist}
use batt_lock.Protocol.StateMachine.Reach.{handshake, since_reset, telemetry_needs_handshake}

abbrev restarted : List Call
restarted = hello ∷ challenge ∷ restart ∷ handshake

allowed : telemetry_allowed (run restarted new_machine).1 ≡ true
unfolding run call telemetry_allowed
allowed = refl

telemetry_needs_handshake_example : Sublist handshake (since_reset [] restarted)
telemetry_needs_handshake_example = telemetry_needs_handshake restarted allowed

-- The IDs "s" and "t", and the battery "b".
abbrev s_id : Text
s_id = 115 ∷ []

abbrev t_id : Text
t_id = 116 ∷ []

abbrev battery : Text
battery = 98 ∷ []
