-- ===== src/Plugin/Swizzle.antt =====
-- The swizzle classes: how a pixel is taken apart into components.
pub mod Sums
pub mod Rle4B
pub mod RleYuv
pub mod Rle565
pub mod Rle10A2
pub mod Rle4Hf
