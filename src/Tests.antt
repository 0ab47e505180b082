-- ===== src/Tests.antt =====
-- Concrete inputs: the theorems applied where their conditions hold.
mod Floats
mod Json
mod Crypto
mod Transport
mod Status
mod Counters
mod Protocol
mod Codec
mod Certificates
mod Vehicle
mod Attacks
mod Run
mod Chip
mod Simulation
mod Frames
mod Demonstration
mod Provisioning
