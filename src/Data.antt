-- ===== src/Data.antt =====
-- The compressors of binary data in pression/data.
pub mod Word
pub mod Rle
pub mod Compressor
pub mod Registry
pub mod Wrappers
