-- ===== src/Crypto/Chip.antt =====
-- `crypto/keys/atecc608.py`: the class ATECC608, which talks to a secure element over a serial line. The
-- package pyserial is a parameter.
pub mod Line
pub mod Errors
pub mod Bridge
use batt_lock.Base.{
  ℕ, ◌==◌, not, Bool, true, false, if◌then◌else◌, list_eq, List, [], ◌∷◌, ◌++◌, length, take, drop,
  Option, none, some, Result, ok, err, ◌>>=◌, ◌>>◌, raise_if, attribute_error, connection_error,
  runtime_error, value_error, message_length, no_pyserial, not_connected, sign_failed, sign_length,
  public_key_failed, genkey_failed,
}
use batt_lock.Base.Texts.{Text, codes}
use batt_lock.Base.Utf8.{encode}
use batt_lock.Base.Utf8.Replace.{decode_replace}
use batt_lock.Base.Strip.{strip}
use batt_lock.Base.Hex.{to_hex, from_hex}
use batt_lock.Can.Message.{Bytes}
use batt_lock.Crypto.Signatures.{raw_sig_len}

-- `serial.Serial`, as the class calls it. `S` is the state of a port and what is behind it; the timeout
-- of two seconds is part of it. A read that times out returns what there is. A port that is closed is
-- let go.
pub record SerialOps (S : Type 0) : Type 0 where
  pub open_port : Text → ℕ → Result S
  pub reset_input_buffer : S → S
  pub write : Bytes → S → Result S
  pub readline : S → Result (Bytes × S)
  pub close_port : S → Result (Unit {0})

pub record Atecc608 (S : Type 0) : Type 0 where
  pub port : Text
  pub baud : ℕ
  pub ser : Option S
  pub connected : Bool

abbrev pub new_chip : {S : Type 0} → Text → ℕ → Atecc608 S
new_chip port baud = record { port = port; baud = baud; ser = none; connected = false }

-- `s.startswith(prefix)`
abbrev pub starts_with : Text → Text → Bool
starts_with prefix s = list_eq (take (length prefix) s) prefix

-- What the answer to SIGN stands for.
unfoldable pub read_signature : Text → Result Bytes
read_signature resp = do
  raise_if (not (starts_with (codes "SIG:") resp)) (runtime_error sign_failed)
  raw ← from_hex (drop 4 resp)
  raise_if (not (length raw == raw_sig_len)) (runtime_error sign_length)
  ok raw

-- How the package makes a key of an uncompressed point is the first argument.
unfoldable pub read_public_key :
    {PublicKey : Type 0} → (Bytes → Result PublicKey) → Text → Result PublicKey
read_public_key from_encoded_point resp = do
  raise_if (not (starts_with (codes "PUB:") resp)) (runtime_error public_key_failed)
  raw ← from_hex (drop 4 resp)
  from_encoded_point (4 ∷ raw)

unfoldable pub read_ok : Text → Result (Unit {0})
read_ok resp = raise_if (not (list_eq resp (codes "OK"))) (runtime_error genkey_failed)

module _ {S : Type 0} (serial : SerialOps S) where
  -- The answer to a line that was written.
  unfoldable pub read_answer : S → Atecc608 S → Result Text × Atecc608 S
  read_answer ser chip = elim (serial.readline ser) [
    | err e ↦ (err e, record chip { ser = some ser })
    | ok (response, ser') ↦ (ok (strip (decode_replace response)), record chip { ser = some ser' })
  ]

  query_open : Text → S → Atecc608 S → Result Text × Atecc608 S
  query_open line ser chip = elim (encode (line ++ 10 ∷ []) >>= λ bytes. serial.write bytes ser) [
    | err e ↦ (err e, chip)
    | ok ser' ↦ read_answer ser' chip
  ]

  -- `_query`; without a port, None has no attribute `write`.
  unfoldable pub query : Text → Atecc608 S → Result Text × Atecc608 S
  unfolding query_open read_answer
  query line chip = elim chip.ser [
    | none ↦ (err attribute_error, chip)
    | some ser ↦ query_open line ser chip
  ]

  -- `self._ser.close()` and `self._ser = None`, if there is a port.
  unfoldable pub close_ser : Atecc608 S → Result (Unit {0}) × Atecc608 S
  close_ser chip = elim chip.ser [
    | none ↦ (ok tt, chip)
    | some ser ↦ elim (serial.close_port ser) [
      | err e ↦ (err e, chip)
      | ok u ↦ (ok tt, record chip { ser = none })
    ]
  ]

  unfoldable pub close : Atecc608 S → Result (Unit {0}) × Atecc608 S
  close chip =
      let (closed, chip') = close_ser chip in
      elim closed [ err e ↦ (err e, chip') | ok u ↦ (ok tt, record chip' { connected = false }) ]

  -- The rest of `connect`, with the answer to PING.
  pong : Result Text × Atecc608 S → Result (Unit {0}) × Atecc608 S
  pong (err e, chip) = (err e, chip)
  pong (ok resp, chip) =
      if not (list_eq resp (codes "PONG"))
      then (let (closed, chip') = close_ser chip in (closed >> err connection_error, chip'))
      else (ok tt, record chip { connected = true })

  -- The first argument is whether pyserial could be imported.
  unfoldable pub connect : Bool → Atecc608 S → Result (Unit {0}) × Atecc608 S
  unfolding pong
  connect has_serial chip =
      if not has_serial
      then (err (runtime_error no_pyserial), chip)
      else elim (serial.open_port chip.port chip.baud) [
        | err e ↦ (err e, chip)
        | ok ser ↦
            pong (query (codes "PING") (record chip { ser = some (serial.reset_input_buffer ser) }))
      ]

  -- A query, and what is made of its answer.
  asked : {A : Type 0} → Text → (Text → Result A) → Atecc608 S → Result A × Atecc608 S
  asked line read chip = let (answer, chip') = query line chip in (answer >>= read, chip')

  unfoldable pub chip_sign : Bytes → Atecc608 S → Result Bytes × Atecc608 S
  unfolding asked
  chip_sign message chip =
      if not chip.connected
      then (err (runtime_error not_connected), chip)
      else if not (length message == 32)
      then (err (value_error message_length), chip)
      else asked (codes "SIGN " ++ to_hex message) read_signature chip

  unfoldable pub chip_public_key :
      {PublicKey : Type 0} → (Bytes → Result PublicKey) → Atecc608 S → Result PublicKey × Atecc608 S
  unfolding asked
  chip_public_key from_encoded_point chip =
      if not chip.connected
      then (err (runtime_error not_connected), chip)
      else asked (codes "PUBKEY") (read_public_key from_encoded_point) chip

  unfoldable pub genkey : Atecc608 S → Result (Unit {0}) × Atecc608 S
  unfolding asked
  genkey chip =
      if not chip.connected
      then (err (runtime_error not_connected), chip)
      else asked (codes "GENKEY") read_ok chip
