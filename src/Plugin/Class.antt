-- ===== src/Plugin/Class.antt =====
-- The classes that derive from `pression::plugin::Compressor`: which functions the virtual method
-- `compress` and the static method `decompress` of each class are.
pub mod Formats
pub mod RoundTrip
pub mod Divided
pub mod Even
use pression.Base.{ℕ, Bool, List, Option, not, ◌^◌}
use pression.Plugin.Float.{Float32}
use pression.Plugin.Codec.{Build, Results}
use pression.Plugin.Dims.{Dims, has_flag, count_pixels, ignore_alpha_flag}
use pression.Plugin.Engine.Rle4B.{
  rle4b_compress, rle4b_decompress, diff_rle4b_compress, diff_rle4b_decompress,
}
use pression.Plugin.Engine.RleYuv.{
  rle_yuv_compress, rle_yuv_decompress, diff_rle_yuv_compress, diff_rle_yuv_decompress,
}
use pression.Plugin.Engine.Rle565.{rle565_compress, rle565_decompress}
use pression.Plugin.Engine.Rle10A2.{rle10a2_compress, rle10a2_decompress}
use pression.Plugin.Engine.Rle4Hf.{
  rle4hf_compress, rle4hf_decompress, diff_rle4hf_compress, diff_rle4hf_decompress,
}

pub data Class : Type 0 where
  rle4b diff_rle4b rle_yuv diff_rle_yuv rle565 rle10a2 rle4hf diff_rle4hf : Class

-- The bytes of a pixel: `sizeof( PixelType )`.
abbrev pub pixel_size : Class → ℕ
pixel_size rle4hf = 8
pixel_size diff_rle4hf = 8
pixel_size _ = 4

-- The virtual method `compress` for a number of pixels.
unfoldable pub compress_pixels :
    Class → Float32 → Build → List ℕ → ℕ → Bool → Results → Option Results
unfolding rle4b_compress diff_rle4b_compress rle_yuv_compress diff_rle_yuv_compress rle565_compress
    rle10a2_compress rle4hf_compress diff_rle4hf_compress
compress_pixels rle4b = rle4b_compress
compress_pixels diff_rle4b = diff_rle4b_compress
compress_pixels rle_yuv = rle_yuv_compress
compress_pixels diff_rle_yuv = diff_rle_yuv_compress
compress_pixels rle565 = rle565_compress
compress_pixels rle10a2 = rle10a2_compress
compress_pixels rle4hf = rle4hf_compress
compress_pixels diff_rle4hf = diff_rle4hf_compress

-- `Compressor::compress` with dimensions and flags.
unfoldable pub compress_dims :
    Class → Float32 → Build → List ℕ → Dims → ℕ → Results → Option Results
unfolding compress_pixels
compress_dims c fl build image dims flags r =
    compress_pixels c fl build image (count_pixels dims flags)
      (not (has_flag flags ignore_alpha_flag)) r

-- The static method `decompress`.
unfoldable pub decompress_dims :
    Class → Float32 → List (List ℕ) → List ℕ → Dims → ℕ → Option (List ℕ)
unfolding rle4b_decompress diff_rle4b_decompress rle_yuv_decompress diff_rle_yuv_decompress
    rle565_decompress rle10a2_decompress rle4hf_decompress diff_rle4hf_decompress
decompress_dims rle4b = rle4b_decompress
decompress_dims diff_rle4b = diff_rle4b_decompress
decompress_dims rle_yuv = rle_yuv_decompress
decompress_dims diff_rle_yuv = diff_rle_yuv_decompress
decompress_dims rle565 = rle565_decompress
decompress_dims rle10a2 = rle10a2_decompress
decompress_dims rle4hf = rle4hf_decompress
decompress_dims diff_rle4hf = diff_rle4hf_decompress
