-- ===== src/Plugin/Engine.antt =====
-- The compressor classes, by the files that define them.
pub mod Rle4B
pub mod RleYuv
pub mod Rle565
pub mod Rle10A2
pub mod Rle4Hf
