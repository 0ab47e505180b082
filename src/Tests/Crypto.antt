-- ===== src/Tests/Crypto.antt =====
-- A signature scheme without secrets, and the laws of `Crypto.Library` for it: a key is its own public
-- key, and a signature is the key with the sum of the message.
use batt_lock.Base.{
  ℕ, ◌+◌, ◌%◌, refl, if◌then◌else◌, list_eq, list_eq_refl, [], ◌∷◌, Result, ok, err,
  invalid_signature, value_error, bad_key, bad_der, arith,
}
use batt_lock.Can.Message.{Bytes}
use batt_lock.Crypto.Library.{CryptoOps, IsCrypto}

abbrev total : Bytes → ℕ
total [] = 0
total (b ∷ bs) = b + total bs

abbrev signed : ℕ → Bytes → Bytes
signed key message = key % 256 ∷ total message % 256 ∷ []

abbrev only : Bytes → Result ℕ
only (k ∷ []) = ok k
only _ = err (value_error bad_key)

abbrev pair : Bytes → Result (ℕ × ℕ)
pair (r ∷ s ∷ []) = ok (r, s)
pair _ = err (value_error bad_der)

abbrev pub toy : CryptoOps ℕ ℕ
toy = record {
  generate_private_key = λ coins. coins;
  public_key = λ key. key;
  sign = λ coins key message. signed key message;
  verify = λ key signature message.
      if list_eq signature (signed key message) then ok tt else err invalid_signature;
  public_bytes = λ key. key ∷ [];
  load_pem_public_key = only;
  encode_dss_signature = λ r s. r ∷ s ∷ [];
  decode_dss_signature = pair;
}

pub toy-IsCrypto : IsCrypto toy
toy-IsCrypto = record {
  verify-sign = λ coins key message. rw (list_eq_refl (signed key message)) refl;
  load-public_bytes = λ key. refl;
  decode_dss-encode_dss = λ r s. refl;
  sign_dss = λ coins key message. (key % 256, total message % 256, omega arith, omega arith, refl);
}
