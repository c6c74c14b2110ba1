-- ===== src/Codec.antt =====
-- The byte codecs of fielddeck/analysis and fielddeck/protocols.
pub mod Slip
pub mod Cobs
pub mod Isotp
pub mod Identifier
pub mod Crc
pub mod Framing
pub mod UdsTables
pub mod Uds
pub mod Integers
mod Tests
