-- ===== src/Tests/Run.antt =====
-- A run of the orchestrator in the scheme of `Tests.Crypto`.
use batt_lock.Base.{ℕ, ◌≡◌, refl, true, [], ◌∷◌, ◌++◌, none, some, ok, arith}
use batt_lock.Base.Utf8.{encode, encode_char}
use batt_lock.Base.Json.{text}
use batt_lock.Can.Message.{CanMessage}
use batt_lock.Crypto.Models.{Certificate}
use batt_lock.Crypto.Signatures.{
  deserialize_public_key, verify_signature, returns_false, serialize_public_key,
}
use batt_lock.Crypto.Auth.{battery_public_key, new_battery}
use batt_lock.Crypto.Certificates.{new_root_ca, create_certificate, certificate_data, encode_value}
use batt_lock.Can.Codec.{decode_signature, encode_signature}
use batt_lock.Can.Codec.RoundTrip.{IsIssuable}
use batt_lock.Can.Vehicle.{VehicleNode, new_vehicle, receive_and_verify_signature}
use batt_lock.Integration.Orchestrator.{
  Inputs, battery_name, serial_name, manufacturer_name, run_phases, new_orchestrator,
}
use batt_lock.Integration.Orchestrator.Completes.{IsEstablished, run_phases_completes}
use batt_lock.Integration.Orchestrator.Justified.{IsJustified, run_phases-IsJustified}
use batt_lock.Tests.Crypto.{toy, toy-IsCrypto}
use batt_lock.Tests.Json.{triples, triples-IsJson}
use batt_lock.Tests.Certificates.{issue, expiry, last_day, noon, read_expiry, in_time}

abbrev inputs : Inputs
inputs = record {
  ca_coins = 4;
  battery_coins = 7;
  certificate_coins = 0;
  sign_coins = 0;
  issue_date = issue;
  expiry_date = expiry;
  now = noon;
  nonce = 1 ∷ 2 ∷ 3 ∷ [];
  timestamp = 1812000000;
  token = 97 ∷ 98 ∷ [];
}

abbrev issued : Certificate
issued = record {
  battery_id = text battery_name;
  manufacturer_id = text manufacturer_name;
  public_key = 7 ∷ [];
  issue_date = text issue;
  expiry_date = text expiry;
  signature = toy.sign 0 4 (battery_name ++ manufacturer_name ++ 7 ∷ (issue ++ expiry));
}

created :
    create_certificate toy 0
      (new_root_ca toy 4)
      battery_name
      manufacturer_name
      (7 ∷ [])
      issue
      expiry
    ≡ ok issued
unfolding create_certificate new_root_ca certificate_data encode_value encode encode_char
created = refl

issued-IsIssuable : IsIssuable issued
issued-IsIssuable = record {
  battery_id = ground arith;
  manufacturer_id = ground arith;
  issue_date = ground arith;
  expiry_date = ground arith;
  public_key = (omega arith, tt);
  signature = (omega arith, (omega arith, tt));
}

run_phases_completes_example :
    IsEstablished toy inputs battery_name (run_phases toy triples inputs new_orchestrator)
run_phases_completes_example =
    run_phases_completes toy toy-IsCrypto triples inputs issued last_day triples-IsJson created
      issued-IsIssuable read_expiry in_time (ground arith)

run_phases-IsJustified_example :
    (made : Certificate) × (create_certificate toy 0
        (new_root_ca toy 4)
        battery_name
        manufacturer_name
        (serialize_public_key toy
          (battery_public_key toy (new_battery toy 7 battery_name serial_name manufacturer_name)))
        issue
        expiry
      ≡ ok made)
    × IsJustified toy triples inputs made
        (new_root_ca toy inputs.ca_coins).public_key
        run_phases_completes_example.world
run_phases-IsJustified_example =
    run_phases-IsJustified toy triples inputs new_orchestrator run_phases_completes_example.world
      run_phases_completes_example.ended

-- A vehicle that has stored a certificate for the key 7 and sent the challenge [1, 2, 3].
abbrev challenged : VehicleNode ℕ
challenged = record (new_vehicle none) {
  stored_certificate = some issued;
  challenge_data = some (1 ∷ 2 ∷ 3 ∷ []);
}

abbrev signature_frame : CanMessage
signature_frame = encode_signature (7 ∷ 6 ∷ [])

accepts : receive_and_verify_signature toy triples signature_frame challenged ≡ ok true
unfolding receive_and_verify_signature deserialize_public_key verify_signature returns_false
    decode_signature encode_signature
accepts = refl
