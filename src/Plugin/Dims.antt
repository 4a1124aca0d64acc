-- ===== src/Plugin/Dims.antt =====
-- Flags and dimensions that the plugin interface passes: pression/plugins/compressor.h, and
-- `Compressor::compress` of pression/compressor/compressor.cpp.
use pression.Base.{ℕ, ◌*◌, Bool, not, ◌==◌, if◌then◌else◌, bit_and, u64}

-- `EQ_COMPRESSOR_DATA_1D`, `EQ_COMPRESSOR_DATA_2D`, `EQ_COMPRESSOR_IGNORE_ALPHA` and
-- `EQ_COMPRESSOR_TRANSFER`.
abbrev pub data_1d_flag : ℕ
data_1d_flag = 0x2

abbrev pub data_2d_flag : ℕ
data_2d_flag = 0x4

abbrev pub ignore_alpha_flag : ℕ
ignore_alpha_flag = 0x8

-- The four dimensions: x, w, y, h.
pub record Dims : Type 0 where
  pub x : ℕ
  pub w : ℕ
  pub y : ℕ
  pub h : ℕ

-- `flags & flag`, as a condition.
unfoldable pub has_flag : ℕ → ℕ → Bool
has_flag flags flag = not (bit_and flags flag == 0)

-- The number of pixels, which each `decompress` computes as `Compressor::compress` does.
unfoldable pub count_pixels : Dims → ℕ → ℕ
unfolding has_flag
count_pixels dims flags = if has_flag flags data_1d_flag then dims.w else u64 (dims.w * dims.h)
