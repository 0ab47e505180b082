-- ===== src/Crypto.antt =====
-- `crypto/`: counters, keys, certificates, signatures and the API over them.
pub mod Models
pub mod Library
pub mod Signatures
pub mod Certificates
pub mod Auth
pub mod Counters
pub mod Api
pub mod Chip
