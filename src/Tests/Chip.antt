-- ===== src/Tests/Chip.antt =====
-- A bridge that answers from the last line that it was sent, with a chip that holds the key 7 of the scheme
-- in `Tests.Crypto`.
use batt_lock.Base.{
  ℕ, ◌≡◌, refl, true, false, if◌then◌else◌, list_eq, [], ◌∷◌, ◌++◌, replicate, some, Result, ok,
  err, value_error, bad_point, connection_error, attribute_error, arith,
}
use batt_lock.Base.Texts.{Text, codes}
use batt_lock.Base.Hex.{to_hex}
use batt_lock.Base.Strip.{strip, is_space}
use batt_lock.Base.Utf8.{encode, encode_char}
use batt_lock.Base.Utf8.Replace.{decode_replace}
use batt_lock.Can.Message.{Bytes}
use batt_lock.Crypto.Chip.{
  SerialOps, Atecc608, new_chip, query, connect, chip_sign, chip_public_key, genkey, close,
  close_ser,
}
use batt_lock.Crypto.Chip.Line.{Answers}
use batt_lock.Crypto.Chip.Bridge.{IsBridge}
use batt_lock.Crypto.Chip.Errors.{IsWired, chip-IsWired, chip_sign-connect_again}
use batt_lock.Tests.Crypto.{toy}

-- An euro sign; the first two bytes of one before a letter; an overlong form; a surrogate.
replaced :
    decode_replace (0xe2 ∷ 0x82 ∷ 0xac ∷ 0xe2 ∷ 0x82 ∷ 65 ∷ 0xc0 ∷ 0x80 ∷ 0xed ∷ 0xa0 ∷ 0x80 ∷ [])
    ≡ 0x20ac ∷ 0xfffd ∷ 65 ∷ 0xfffd ∷ 0xfffd ∷ 0xfffd ∷ 0xfffd ∷ 0xfffd ∷ []
unfolding decode_replace
replaced = refl

abbrev pub nonce : Bytes
nonce = replicate 32 1

-- The numbers 7 and 32.
abbrev pub raw : Bytes
raw = replicate 31 0 ++ 7 ∷ replicate 31 0 ++ 32 ∷ []

abbrev pub answer : Bytes → Text
unfolding to_hex
answer line =
    if list_eq line (codes "PING" ++ 10 ∷ [])
    then codes "PONG"
    else if list_eq line (codes "PUBKEY" ++ 10 ∷ [])
    then codes "PUB:07"
    else if list_eq line (codes "GENKEY" ++ 10 ∷ [])
    then codes "OK"
    else codes "SIG:" ++ to_hex raw

abbrev pub serial : SerialOps Bytes
serial = record {
  open_port = λ port baud. ok [];
  reset_input_buffer = λ s. s;
  write = λ line s. ok line;
  readline = λ s. ok (answer s ++ 13 ∷ 10 ∷ [], s);
  close_port = λ s. ok tt;
}

abbrev pub from_encoded_point : Bytes → Result ℕ
from_encoded_point (form ∷ k ∷ []) = ok k
from_encoded_point _ = err (value_error bad_point)

ping-Answers : (s : Bytes) → Answers serial s (codes "PING") (codes "PONG")
unfolding is_space answer
ping-Answers s = record {
  sent = codes "PING" ++ 10 ∷ [];
  later = codes "PING" ++ 10 ∷ [];
  ending = 13 ∷ 10 ∷ [];
  written = refl;
  response = refl;
  ascii = omega arith;
  visible = omega arith;
  ending_ascii = omega arith;
  ending_spaces = (refl, (refl, tt));
}

genkey-Answers : (s : Bytes) → Answers serial s (codes "GENKEY") (codes "OK")
unfolding is_space answer
genkey-Answers s = record {
  sent = codes "GENKEY" ++ 10 ∷ [];
  later = codes "GENKEY" ++ 10 ∷ [];
  ending = 13 ∷ 10 ∷ [];
  written = refl;
  response = refl;
  ascii = omega arith;
  visible = omega arith;
  ending_ascii = omega arith;
  ending_spaces = (refl, (refl, tt));
}

pubkey-Answers : (s : Bytes) → Answers serial s (codes "PUBKEY") (codes "PUB:" ++ to_hex (7 ∷ []))
unfolding is_space answer to_hex
pubkey-Answers s = record {
  sent = codes "PUBKEY" ++ 10 ∷ [];
  later = codes "PUBKEY" ++ 10 ∷ [];
  ending = 13 ∷ 10 ∷ [];
  written = refl;
  response = refl;
  ascii = omega arith;
  visible = omega arith;
  ending_ascii = omega arith;
  ending_spaces = (refl, (refl, tt));
}

sign-Answers :
    (s : Bytes) → Answers serial s (codes "SIGN " ++ to_hex nonce) (codes "SIG:" ++ to_hex raw)
unfolding is_space answer to_hex
sign-Answers s = record {
  sent = (codes "SIGN " ++ to_hex nonce) ++ 10 ∷ [];
  later = (codes "SIGN " ++ to_hex nonce) ++ 10 ∷ [];
  ending = 13 ∷ 10 ∷ [];
  written = refl;
  response = refl;
  ascii = omega arith;
  visible = omega arith;
  ending_ascii = omega arith;
  ending_spaces = (refl, (refl, tt));
}

pub bridge : IsBridge serial toy from_encoded_point 7 nonce
bridge = record {
  opens = λ port baud. ([], refl);
  pings = ping-Answers;
  generates = genkey-Answers;
  raw = raw;
  raw_bytes = omega arith;
  raw_size = refl;
  signs = sign-Answers;
  point = 7 ∷ [];
  point_bytes = omega arith;
  shows = pubkey-Answers;
  decoded = refl;
}

-- A chip that is connected, and one that is not.
abbrev open_chip : Atecc608 Bytes
open_chip = record { port = codes "COM3"; baud = 115200; ser = some []; connected = true }

abbrev closed_chip : Atecc608 Bytes
closed_chip = new_chip (codes "COM3") 115200

chip-IsWired_example :
    IsWired serial closed_chip
    × (open_chip.connected ≡ false → IsWired serial (connect serial true open_chip).1)
    × IsWired serial (chip_sign serial nonce open_chip).1
    × IsWired serial (chip_public_key serial from_encoded_point open_chip).1
    × IsWired serial (genkey serial open_chip).1
    × IsWired serial (close serial open_chip).1
chip-IsWired_example =
    chip-IsWired serial from_encoded_point nonce true (codes "COM3") 115200 open_chip
      (λ on none_here. cc)

-- A device that answers every line with an empty one.
abbrev mute : SerialOps Bytes
mute = record serial { readline = λ s. ok (13 ∷ 10 ∷ [], s) }

empty_answer :
    query mute (codes "PING") (record open_chip { ser = some [] })
    ≡ (ok [], record open_chip { ser = some (codes "PING" ++ 10 ∷ []) })
unfolding query encode encode_char decode_replace strip is_space
empty_answer = refl

chip_sign-connect_again_example :
    ((connect mute true open_chip).0 ≡ err connection_error)
    × ((chip_sign mute nonce (connect mute true open_chip).1).0 ≡ err attribute_error)
chip_sign-connect_again_example =
    chip_sign-connect_again mute nonce [] open_chip
      (record open_chip { ser = some (codes "PING" ++ 10 ∷ []) }) [] refl refl empty_answer
      (λ same. cc) (unfold close_ser in refl) refl
