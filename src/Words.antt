-- ===== src/Words.antt =====
-- Operations of C on the bits of unsigned numbers: their laws at every width, for the code of
-- util/cryption.
pub mod Digits
pub mod Xor
pub mod Masks
