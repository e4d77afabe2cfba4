-- ===== src/TDecimal.antt =====
-- The Tarantool decimal codec (tdecimal/): the packed decimal bytes of bcd.go.
pub mod Bcd
pub mod Nibbles
pub mod Encode
pub mod Text
pub mod Decode
pub mod RoundTrip
mod Tests
