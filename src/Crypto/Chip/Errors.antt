-- ===== src/Crypto/Chip/Errors.antt =====
-- What the methods of the chip raise, and what a signature of the chip looks like whatever the line says.
use batt_lock.Base.{
  ℕ, Bool, Error, connection_error, attribute_error, list_eq, list_eq→eq, ◌∙◌, ◌++◌, if◌then◌else◌,
  ◌≡◌, ◌≢◌, ◌⊎◌, Option, inl, inr, refl, ap, sym, true, false, not, ◌==◌, length, Bool-cases, none,
  some, ok, err, Result, >>=-eq-ok, runtime_error, value_error, not_connected, message_length,
  arith,
}
use batt_lock.Base.Texts.{Text, codes}
use batt_lock.Base.Hex.{to_hex}
use batt_lock.Can.Message.{Bytes}
use batt_lock.Crypto.Chip.{
  SerialOps, new_chip, Atecc608, query, query_open, read_answer, asked, read_signature, chip_sign,
  close_ser, chip_public_key, genkey, connect, pong, close,
}

read_signature-length : (resp : Text) (raw : Bytes) → read_signature resp ≡ ok raw → length raw ≡ 64
unfolding read_signature
read_signature-length resp raw h = ground arith

-- A method that goes on after `if not b: raise e` and returns.
passes :
    {A X : Type 0} {y : A} (b : Bool) (e : Error) (x : X) (r : Result A × X)
    → (if not b then (err e, x) else r).0 ≡ ok y
    → (b ≡ true) × (r.0 ≡ ok y)
passes true e x r h = (refl, h)
passes false e x r h = cc

module _ {S : Type 0} (serial : SerialOps S) where
  -- Without a connection the three methods that need one raise a RuntimeError, and a message that has not
  -- 32 bytes is a ValueError; in all these cases nothing is sent to the chip.
  pub chip_refuses :
      {PublicKey : Type 0} (from_encoded_point : Bytes → Result PublicKey) (message : Bytes)
      (chip : Atecc608 S)
      → ((chip.connected ≡ false)
          → (chip_sign serial message chip ≡ (err (runtime_error not_connected), chip))
            × (chip_public_key serial from_encoded_point chip
                ≡ (err (runtime_error not_connected), chip))
            × (genkey serial chip ≡ (err (runtime_error not_connected), chip)))
        × ((chip.connected ≡ true)
            → length message ≢ 32
            → chip_sign serial message chip ≡ (err (value_error message_length), chip))
  unfolding chip_sign chip_public_key genkey
  chip_refuses from_encoded_point message chip =
      (λ off. (rw off, rw off, rw off), λ on size. ground arith)

  -- Whatever the chip answers, a signature is returned only over a connection, for a message of 32 bytes,
  -- and has 64 bytes.
  pub chip_sign_sound :
      (message raw : Bytes) (chip : Atecc608 S)
      → (chip_sign serial message chip).0 ≡ ok raw
      → (chip.connected ≡ true) × (length message ≡ 32) × (length raw ≡ 64)
  unfolding chip_sign asked
  chip_sign_sound message raw chip h =
      let (on, g) = passes chip.connected _ _ _ h in
      let (size, f) = passes (length message == 32) _ _ _ g in
      let (resp, _, r) = >>=-eq-ok (query serial _ chip).0 read_signature f in
      (on, ground arith, read_signature-length resp raw r)

  -- A chip that is connected has a port.
  abbrev pub IsWired : Atecc608 S → Type 0
  IsWired chip = chip.connected ≡ true → chip.ser ≢ none

  query-IsWired :
      (line : Text) (chip : Atecc608 S) → IsWired chip → IsWired (query serial line chip).1
  unfolding query query_open read_answer
  query-IsWired line chip w = ground arith

  query-port :
      (line : Text) (chip : Atecc608 S) → chip.ser ≢ none → (query serial line chip).1.ser ≢ none
  unfolding query query_open read_answer
  query-port line chip w = ground arith

  query-connected :
      (line : Text) (chip : Atecc608 S) → (query serial line chip).1.connected ≡ chip.connected
  unfolding query query_open read_answer
  query-connected line chip = ground arith

  close_ser-connected : (chip : Atecc608 S) → (close_ser serial chip).1.connected ≡ chip.connected
  unfolding close_ser
  close_ser-connected chip = ground arith

  pong-IsWired :
      (r : Result Text × Atecc608 S)
      → r.1.ser ≢ none
      → r.1.connected ≡ false
      → IsWired (pong serial r).1
  unfolding pong
  pong-IsWired (err e, chip) w off = λ on. cc
  pong-IsWired (ok resp, chip) w off = elim (Bool-cases (list_eq resp (codes "PONG"))) [
    | inl same ↦ rw same (λ on. w)
    | inr other ↦ rw other (λ on. cc (sym (close_ser-connected chip) ∙ on, off))
  ]

  connect-IsWired :
      (has_serial : Bool) (chip : Atecc608 S)
      → chip.connected ≡ false
      → IsWired (connect serial has_serial chip).1
  unfolding connect
  connect-IsWired false chip off = λ on. cc
  connect-IsWired true chip off = go (serial.open_port chip.port chip.baud) refl
    where
      go :
          (r : Result S)
          → serial.open_port chip.port chip.baud ≡ r
          → IsWired (connect serial true chip).1
      go (err e) f = rw f (λ on. cc)
      go (ok ser) f =
          let opened = record chip { ser = some (serial.reset_input_buffer ser) } in
          let wired : opened.ser ≢ none = λ none_here. cc in
          rw f (
            pong-IsWired (query serial (codes "PING") opened)
              (query-port (codes "PING") opened wired)
              (query-connected (codes "PING") opened ∙ off))

  close_ser-cases :
      (chip : Atecc608 S)
      → (((close_ser serial chip).1.ser ≡ none)
          × ((close_ser serial chip).0 ≡ ok tt)
          × ((close_ser serial chip).1.connected ≡ chip.connected))
        ⊎ ((e : Error) × (close_ser serial chip ≡ (err e, chip)))
  unfolding close_ser
  close_ser-cases chip = go chip.ser refl
    where
      go :
          (s : Option S)
          → chip.ser ≡ s
          → (((close_ser serial chip).1.ser ≡ none)
              × ((close_ser serial chip).0 ≡ ok tt)
              × ((close_ser serial chip).1.connected ≡ chip.connected))
            ⊎ ((e : Error) × (close_ser serial chip ≡ (err e, chip)))
      go none h = inl (rw h (refl, refl, refl))
      go (some s) h = closing (serial.close_port s) refl
        where
          closing :
              (r : Result (Unit {0}))
              → serial.close_port s ≡ r
              → (((close_ser serial chip).1.ser ≡ none)
                  × ((close_ser serial chip).0 ≡ ok tt)
                  × ((close_ser serial chip).1.connected ≡ chip.connected))
                ⊎ ((e : Error) × (close_ser serial chip ≡ (err e, chip)))
          closing (ok u) c = inl (ground arith, ground arith, ground arith)
          closing (err e) c = inr (e, ground arith)

  closed-IsWired :
      (r : Result (Unit {0}) × Atecc608 S)
      → ((e : Error) → r.0 ≡ err e → IsWired r.1)
      → IsWired
          (let (closed, chip') = r in
            elim closed as (λ _. Result (Unit {0}) × Atecc608 S) [
              | err e ↦ (err e, chip')
              | ok u ↦ (ok tt, record chip' { connected = false })
            ]).1
  closed-IsWired (err e, chip') w = w e refl
  closed-IsWired (ok u, chip') w = λ on. cc

  close-IsWired : (chip : Atecc608 S) → IsWired chip → IsWired (close serial chip).1
  unfolding close
  close-IsWired chip w =
      closed-IsWired (close_ser serial chip) (λ e h. kept e h (close_ser-cases chip))
    where
      kept :
          (e : Error)
          → (close_ser serial chip).0 ≡ err e
          → (((close_ser serial chip).1.ser ≡ none)
              × ((close_ser serial chip).0 ≡ ok tt)
              × ((close_ser serial chip).1.connected ≡ chip.connected))
            ⊎ ((e : Error) × (close_ser serial chip ≡ (err e, chip)))
          → IsWired (close_ser serial chip).1
      kept e h (inl (gone, ended, same)) = cc
      kept e h (inr (d, raised)) = rw raised w

  chip_sign-unwired :
      (message : Bytes) (chip : Atecc608 S)
      → chip.connected ≡ true
      → chip.ser ≡ none
      → length message ≡ 32
      → (chip_sign serial message chip).0 ≡ err attribute_error
  unfolding chip_sign asked query
  chip_sign-unwired message chip on gone size = ground arith

  -- A port stands behind every connection: each method keeps that, whatever the line says, raised exceptions
  -- included, if `connect` is called on a chip that is not connected; and it holds for a chip that has just
  -- been made.
  pub chip-IsWired :
      {PublicKey : Type 0} (from_encoded_point : Bytes → Result PublicKey) (message : Bytes)
      (has_serial : Bool) (port : Text) (baud : ℕ) (chip : Atecc608 S)
      → IsWired chip
      → IsWired (new_chip port baud)
        × (chip.connected ≡ false → IsWired (connect serial has_serial chip).1)
        × IsWired (chip_sign serial message chip).1
        × IsWired (chip_public_key serial from_encoded_point chip).1
        × IsWired (genkey serial chip).1
        × IsWired (close serial chip).1
  unfolding chip_sign chip_public_key genkey close asked
  chip-IsWired from_encoded_point message has_serial port baud chip w = (
    λ h. cc,
    connect-IsWired has_serial chip,
    ground (arith, query-IsWired (codes "SIGN " ++ to_hex message) chip w),
    ground (arith, query-IsWired (codes "PUBKEY") chip w),
    ground (arith, query-IsWired (codes "GENKEY") chip w),
    close-IsWired chip w,
  )

  -- A second `connect` that fails, because PING is answered by something else, leaves a chip that counts as
  -- connected without a port, if the port closes: signing 32 bytes then raises an AttributeError.
  pub chip_sign-connect_again :
      (message : Bytes) (answer : Text) (chip wired : Atecc608 S) (ser : S)
      → chip.connected ≡ true
      → serial.open_port chip.port chip.baud ≡ ok ser
      → query serial (codes "PING") (record chip { ser = some (serial.reset_input_buffer ser) })
        ≡ (ok answer, wired)
      → answer ≢ codes "PONG"
      → (close_ser serial wired).0 ≡ ok tt
      → length message ≡ 32
      → ((connect serial true chip).0 ≡ err connection_error)
        × ((chip_sign serial message (connect serial true chip).1).0 ≡ err attribute_error)
  unfolding connect pong chip_sign asked
  chip_sign-connect_again message answer chip wired ser on opened asked_here other closes size =
      let differs : list_eq answer (codes "PONG") ≡ false =
        elim (Bool-cases (list_eq answer (codes "PONG"))) [
          | inl same ↦ absurd (other (list_eq→eq answer (codes "PONG") same))
          | inr differ ↦ differ
        ] in
      let still : wired.connected ≡ true =
        ap (λ (r : Result Text × Atecc608 S). r.1.connected) (sym asked_here)
        ∙ query-connected (codes "PING") _
        ∙ on in
      elim (close_ser-cases wired) [
        | inr (e, raised) ↦ cc (rw raised at closes)
        | inl (gone, ended, same) ↦
            rw (opened, asked_here, differs, ended)
              (refl, chip_sign-unwired message (close_ser serial wired).1 (same ∙ still) gone size)
      ]
