-- ===== src/Des.antt =====
-- DES, 3DES and DOCSIS DES in C: lib/des_basic.c, lib/des_key.c and lib/include/des_utils.h.
pub mod Boxes
pub mod Block
pub mod Schedule
pub mod Inverse
pub mod Bounds
pub mod OneBlock
pub mod Modes
pub mod Chaining
pub mod Cfb
pub mod Partial
pub mod RoundTrip
pub mod Docsis
pub mod Select
pub mod Subkeys
pub mod SixBits
mod Tests
