-- ===== src/Plugin.antt =====
-- The compression plugins of pression/compressor.
pub mod Types
pub mod Swizzle
pub mod Chunk
pub mod Float
pub mod Codec
pub mod Dims
pub mod Engine
pub mod Class
pub mod Engines
pub mod Api
pub mod TurboJpeg
