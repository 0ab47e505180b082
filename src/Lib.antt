-- ===== src/Lib.antt =====
-- A verification of BattLock, which authenticates the battery of an electric vehicle over a CAN bus
-- and checks the telemetry that the battery sends. The code is Python.
--
-- The parts of the program and how they meet: a root CA issues a certificate for the key of a battery;
-- the orchestrator lets the battery send it to the vehicle, lets the vehicle send a challenge and
-- verify the battery's signature over it, and opens a session, each step a frame on a bus and a
-- transition of the protocol's state machine. Telemetry is packed by the encoder, in one frame or in
-- three that a collector puts together; its counter passes a replay window and its values the checks of
-- the vehicle. The transport cuts long payloads into frames of at most 8 bytes. The attacks make frames
-- and certificates that the vehicle is meant to report. The key of a battery may be in a secure element,
-- which signs over a serial line and gets its certificate from the provisioning tool. Recorded frames are
-- checked again mode by mode.
--
-- Base holds what Python gives the program: Base.Int its ints, Base.Lists slices and indexing,
-- Base.Texts, Base.Strip and Base.Utf8 its str and the UTF-8 codec, Base.Hex hexadecimal digits,
-- Base.Decimal `str` of an int, Base.Base64, Base.BigEndian `to_bytes` and `from_bytes`, Base.Dates
-- `strptime` and `strftime` of a date with the days around a moment, Base.Struct the integer formats of `struct`, and Base.Errors exceptions as values
-- of `Result`.
--
-- Parameters, each a record of operations with a record of the laws that the proofs use: floats
-- (Base.Float, with the facts of IEEE 754), the module json on dicts of strings (Base.Json), the package
-- cryptography (Crypto.Library), and the package pyserial with the device behind it (Crypto.Chip, with the
-- device's documented answers in Crypto.Chip.Bridge). Operations without laws are the decoder of a point,
-- the PEM form of a private key and the files of the provisioning tool, which may fail, `float` and `int` of a text (Integration.Frames), and the floats of the
-- metrics and of the times in Simulink. Random values and readings of the clock are arguments (in one run
-- certificates are all verified at the same moment); what the module random draws is a stream
-- of numbers, and a shuffled list is in any order that the stream chooses.
--
-- Which file models which code:
--   Can.Message    can/can_message.py and can/can_ids.py
--   Can.Transport  can/transport.py: `fragment`, `reassemble` and the class CANBus
--   Can.Status     can/status_message.py and the status frames of can/encoder.py, can/decoder.py
--   Can.Codec      the other frames of can/encoder.py and can/decoder.py
--   Can.Collector  can/status_collector.py: the class StatusCollector
--   Can.Vehicle    can/simulation/vehicle_node.py: `receive` returns as a `Verdict` what it prints
--   Can.Battery    can/simulation/battery_node.py
--   Can.RunSimulation  can/simulation/run_simulation.py: `main`, one function for each part
--   Crypto.Models         crypto/models/ and the records of crypto/auth/
--   Crypto.Signatures     crypto/crypto_utils/signatures.py and key_serialization.py
--   Crypto.Certificates   crypto/certs/
--   Crypto.Auth           crypto/auth/, crypto/keys/software_keys.py and crypto/models/battery.py
--   Crypto.Counters       crypto/counters/
--   Crypto.Api            crypto/crypto_api.py and crypto/keys/key_manager.py
--   Crypto.Chip           crypto/keys/atecc608.py: the class ATECC608
--   Provisioning          provisioning/provision.py: `provision`
--   Simulation            simulation/, protocol/messages/ and performance/crypto/auth_once.py
--   Protocol.StateMachine     protocol/state_machine.py
--   Protocol.SessionManager   protocol/session_manager.py
--   Attacks.Bus, Attacks.Telemetry, Attacks.Certificates, Attacks.Fuzzing   attacks/
--   Integration.Metrics       integration/metrics.py, and `log_frame` of integration/can_logger.py
--   Integration.Frames        integration/verify_frames.py and simulink/verify_all_modes.py
--   Simulink                  simulink/generate_extra_modes.py
--   Integration.Orchestrator  integration/orchestrator.py: `run`, one function for each phase
-- A method takes its object and returns it changed, next to its result. The child modules of each
-- file hold what is proved of it, and Tests the theorems at concrete inputs.
--
-- Fuel: the `while` of `fragment` runs on one more than the length of the payload; a round takes 7
-- bytes of it, so `no_fuel` is never returned (Can.Transport.Fragment). `str` of an int runs on one more
-- than the int, and its text stands for that int (Base.Decimal). A shuffle runs on the length of its list.
--
-- A Python `bytes` is a list of numbers; the model does not say that they are below 256 where no
-- proof needs it. `struct`'s native format of the single status frame is taken as little-endian,
-- as on the machines the program runs on. The digits of a date are those of ASCII.
--
-- Not modelled: printing, the texts of the logs, a failure to write the files of `verify_frames` and
-- `verify_all`, the files that the metrics are exported to, the firmware in C++, the plots, the benchmarks,
-- and the command lines of the scripts.
pub mod Base
pub mod Can
pub mod Crypto
pub mod Protocol
pub mod Attacks
pub mod Integration
pub mod Simulation
pub mod Simulink
pub mod Provisioning
pub mod Tests
