-- ===== src/Tests/Demonstration.antt =====
-- The demonstration and the extra modes, with the floats of `Tests.Floats` and the scheme of `Tests.Crypto`.
use batt_lock.Base.{All, ◌↔◌, ℕ, ◌+◌, ◌*◌, ◌^◌, ◌≡◌, some, refl, [], ◌∷◌, ok, arith}
use batt_lock.Base.Texts.{codes}
use batt_lock.Base.Utf8.{ascii-IsScalar}
use batt_lock.Base.Int.{pos}
use batt_lock.Can.Message.{CanMessage}
use batt_lock.Can.Status.{encode_status}
use batt_lock.Can.Status.RoundTrip.{rounded}
use batt_lock.Can.Battery.{own_status, new_battery_node}
use batt_lock.Can.Vehicle.{
  identity, valid, replay_attack, injection_attack, session_received, receive,
}
use batt_lock.Can.RunSimulation.Steps.{Scene, new_scene, the_battery}
use batt_lock.Can.RunSimulation.{telemetry_parts, part_7, part_8_hijack}
use batt_lock.Can.RunSimulation.Attacked.{at, telemetry_parts_runs}
use batt_lock.Can.RunSimulation.Hijacked.{quiet, in_session, part_8_hijack_unnoticed}
use batt_lock.Attacks.Fuzzing.{Source, fuzz}
use batt_lock.Can.RunSimulation.Fuzzed.{IsReadable, part_7_ends_iff}
use batt_lock.Simulink.Rows.{TimeOps}
use batt_lock.Simulink.Setup.{Chances}
use batt_lock.Simulink.{mode_7_delay}
use batt_lock.Simulink.Delayed.{after, replay_row, mode_7_delay_runs}
use batt_lock.Tests.Floats.{decimals, decimals-IsIeee}
use batt_lock.Tests.Crypto.{toy}
use batt_lock.Tests.Json.{triples}
use batt_lock.Tests.Certificates.{noon}
use batt_lock.Tests.Vehicle.{fresh_vehicle}

telemetry_parts_runs_example :
    telemetry_parts decimals (new_scene 4)
    ≡ ok (
        at decimals 6
          (record fresh_vehicle {
            root_ca_public_key = some 4;
            replay = record { last_counter = pos 999 };
          })
          (identity (codes "BAT001")
            ∷ valid (rounded decimals (own_status decimals 1))
            ∷ valid (rounded decimals (own_status decimals 2))
            ∷ replay_attack
            ∷ injection_attack
            ∷ replay_attack
            ∷ replay_attack
            ∷ replay_attack
            ∷ []))
telemetry_parts_runs_example = telemetry_parts_runs decimals decimals-IsIeee 4

part_8_hijack_unnoticed_example :
    part_8_hijack toy triples decimals
      (codes "ab")
      (quiet fresh_vehicle (new_battery_node the_battery) [])
    ≡ ok (
        quiet
          (in_session (codes "ab") fresh_vehicle)
          (new_battery_node the_battery)
          (session_received (codes "ab") ∷ []))
part_8_hijack_unnoticed_example =
    part_8_hijack_unnoticed toy triples decimals (codes "ab") fresh_vehicle
      (new_battery_node the_battery) [] (ascii-IsScalar (codes "ab") (omega arith)) refl

abbrev clock : TimeOps (ℕ × ℕ)
clock = record { add = λ (m, j) (n, k). (m * 10 ^ k + n * 10 ^ j, j + k); round_6 = λ t. t }

abbrev chances : Chances
chances = record {
  key_coins = 7;
  ca_coins = 4;
  rogue_coins = 5;
  sign_coins = λ n. n;
  now = noon;
  utc_now = noon;
  nonce = 9 ∷ [];
  token = codes "ab";
  source = λ n. n;
}

mode_7_delay_runs_example :
    (mode_7_delay toy decimals clock chances
      ≡ ok (
          replay_row decimals clock (0, 0) 2
          ∷ replay_row decimals clock (clock.add (0, 0) (1, 1)) 1
          ∷ []))
    × (newer : CanMessage) × (encode_status decimals (own_status decimals 2) ≡ ok newer)
    × ((receive decimals newer (after decimals decimals-IsIeee {PublicKey = ℕ} 0)).0
        ≡ ok (valid (rounded decimals (own_status decimals 2))))
    × (older : CanMessage) × (encode_status decimals (own_status decimals 1) ≡ ok older)
    × ((receive decimals older
          (receive decimals newer (after decimals decimals-IsIeee {PublicKey = ℕ} 0)).1).0
        ≡ ok replay_attack)
mode_7_delay_runs_example = mode_7_delay_runs decimals decimals-IsIeee toy clock chances

-- Five empty frames with the ID 0.
abbrev zeros : Source
zeros n = 0

part_7_ends_iff_example :
    ((s : Scene (ℕ × ℕ) ℕ) × (part_7 decimals zeros
          (quiet fresh_vehicle (new_battery_node the_battery) [])
        ≡ ok s))
    ↔ All IsReadable (fuzz 5 zeros).0
part_7_ends_iff_example =
    part_7_ends_iff decimals decimals-IsIeee zeros fresh_vehicle (new_battery_node the_battery) []
      (omega arith)
