-- ===== src/Tests/Simulation.antt =====
-- The older nodes at noon of a day before the expiry date.
use batt_lock.Base.{◌≡◌, true, [], ◌∷◌, ok}
use batt_lock.Simulation.{Draws, authenticate_once}
use batt_lock.Simulation.Completes.{authenticate_once_completes}
use batt_lock.Tests.Crypto.{toy, toy-IsCrypto}
use batt_lock.Tests.Certificates.{noon, in_time}

abbrev draws : Draws
draws = record {
  ca_coins = 4;
  battery_coins = 7;
  certificate_coins = 1;
  sign_coins = 2;
  now = noon;
  nonce = 9 ∷ 8 ∷ [];
  timestamp = 1800000000;
  token = 97 ∷ 98 ∷ [];
}

authenticate_once_completes_example : authenticate_once toy draws ≡ ok true
authenticate_once_completes_example = authenticate_once_completes toy toy-IsCrypto draws in_time
