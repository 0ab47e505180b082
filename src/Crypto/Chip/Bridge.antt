-- ===== src/Crypto/Chip/Bridge.antt =====
-- A chip behind a bridge that answers as the class's documentation says.
use batt_lock.Base.{ℕ, ◌≡◌, ◌<◌, refl, true, ◌∷◌, ◌++◌, length, All, some, ok, Result}
use batt_lock.Base.Texts.{Text, codes}
use batt_lock.Base.Hex.{to_hex, from_hex-to_hex}
use batt_lock.Can.Message.{Bytes}
use batt_lock.Crypto.Library.{CryptoOps}
use batt_lock.Crypto.Chip.{
  SerialOps, Atecc608, new_chip, asked, read_signature, read_public_key, read_ok, chip_sign,
  chip_public_key, genkey, connect, pong,
}
use batt_lock.Crypto.Chip.Line.{Answers, query_answered}

read_signature_hex :
    (raw : Bytes)
    → All (λ b. b < 256) raw
    → length raw ≡ 64
    → read_signature (codes "SIG:" ++ to_hex raw) ≡ ok raw
unfolding read_signature
read_signature_hex raw bytes size = rw (from_hex-to_hex raw bytes, size) refl

read_public_key_hex :
    {PublicKey : Type 0} (from_encoded_point : Bytes → Result PublicKey) (point : Bytes)
    → All (λ b. b < 256) point
    → read_public_key from_encoded_point (codes "PUB:" ++ to_hex point)
      ≡ from_encoded_point (4 ∷ point)
unfolding read_public_key
read_public_key_hex from_encoded_point point bytes = rw (from_hex-to_hex point bytes) refl

module _ {S PrivateKey PublicKey : Type 0} (serial : SerialOps S)
    (ops : CryptoOps PrivateKey PublicKey) (from_encoded_point : Bytes → Result PublicKey) where
  -- A bridge to a chip whose public key is `key`, and what it answers where it is asked to sign `nonce`:
  -- `raw` are the 64 bytes that the chip makes of it.
  pub record IsBridge (key : PublicKey) (nonce : Bytes) : Type 0 where
    pub opens : (port : Text) (baud : ℕ) → (s : S) × (serial.open_port port baud ≡ ok s)
    pub pings : (s : S) → Answers serial s (codes "PING") (codes "PONG")
    pub generates : (s : S) → Answers serial s (codes "GENKEY") (codes "OK")
    pub raw : Bytes
    pub raw_bytes : All (λ b. b < 256) raw
    pub raw_size : length raw ≡ 64
    pub signs :
        (s : S) → Answers serial s (codes "SIGN " ++ to_hex nonce) (codes "SIG:" ++ to_hex raw)
    pub point : Bytes
    pub point_bytes : All (λ b. b < 256) point
    pub shows : (s : S) → Answers serial s (codes "PUBKEY") (codes "PUB:" ++ to_hex point)
    pub decoded : from_encoded_point (4 ∷ point) ≡ ok key

  module _ {key : PublicKey} {nonce : Bytes} (bridge : IsBridge key nonce) where
    -- A chip that is connected, at the state `s` of its port.
    abbrev pub at : Text → ℕ → S → Atecc608 S
    at port baud s = record { port = port; baud = baud; ser = some s; connected = true }

    pub connect_bridge :
        (port : Text) (baud : ℕ)
        → (s : S) × (connect serial true (new_chip port baud) ≡ (ok tt, at port baud s))
    unfolding connect pong
    connect_bridge port baud =
        let (s, e) = bridge.opens port baud in
        let a = bridge.pings (serial.reset_input_buffer s) in
        let opened = record (new_chip {S = S} port baud) {
          ser = some (serial.reset_input_buffer s);
        } in
        (
          a.later,
          rw (e, query_answered serial opened (serial.reset_input_buffer s) _ _ a refl) refl,
        )

    pub genkey_bridge :
        (port : Text) (baud : ℕ) (s : S)
        → (s' : S) × (genkey serial (at port baud s) ≡ (ok tt, at port baud s'))
    unfolding genkey asked read_ok
    genkey_bridge port baud s =
        let a = bridge.generates s in
        (a.later, rw (query_answered serial (at port baud s) s _ _ a refl) refl)

    pub chip_sign_bridge :
        (port : Text) (baud : ℕ) (s : S)
        → length nonce ≡ 32
        → (s' : S) × (chip_sign serial nonce (at port baud s) ≡ (ok bridge.raw, at port baud s'))
    unfolding chip_sign asked
    chip_sign_bridge port baud s size =
        let a = bridge.signs s in
        (
          a.later,
          rw
              (
                size,
                query_answered serial (at port baud s) s _ _ a refl,
                read_signature_hex bridge.raw bridge.raw_bytes bridge.raw_size,
              )
              refl,
        )

    pub chip_public_key_bridge :
        (port : Text) (baud : ℕ) (s : S)
        → (s' : S) × (chip_public_key serial from_encoded_point (at port baud s)
            ≡ (ok key, at port baud s'))
    unfolding chip_public_key asked
    chip_public_key_bridge port baud s =
        let a = bridge.shows s in
        (
          a.later,
          rw
              (
                query_answered serial (at port baud s) s _ _ a refl,
                read_public_key_hex from_encoded_point bridge.point bridge.point_bytes,
                bridge.decoded,
              )
              refl,
        )
