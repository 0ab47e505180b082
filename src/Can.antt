-- ===== src/Can.antt =====
-- The CAN layer, `can/`: messages and identifiers, the transport, the codecs and the nodes.
pub mod Message
pub mod Transport
pub mod Status
pub mod Collector
pub mod Codec
pub mod Vehicle
pub mod Battery
pub mod RunSimulation
