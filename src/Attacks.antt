-- ===== src/Attacks.antt =====
-- `attacks/`: what an attacker on the bus does, and what the vehicle makes of it.
pub mod Bus
pub mod Telemetry
pub mod Certificates
pub mod Detection
pub mod Fuzzing
