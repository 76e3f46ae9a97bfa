-- ===== src/Bridge/Cbor.antt =====
-- components/nev_bridge/src/nev_cbor.c. A byte is a number below 256, a float is its 32 bits, and a
-- buffer is its bytes; `m | x` of bits that do not meet is `m + x`.
pub mod Writer
pub mod Reader
pub mod Heads
pub mod Written
pub mod Numbers
pub mod Strings
pub mod Scalars
pub mod Skips
pub mod Ranges
mod Tests
