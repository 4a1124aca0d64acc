-- ===== src/Plugin/Engine/RleYuv.antt =====
-- The compressor classes of pression/compressor/compressorRLEYUV.cpp.
use pression.Base.{ℕ, Bool, true, false, List, Option, not}
use pression.Plugin.Types.{Format, use_alpha, no_alpha}
use pression.Plugin.Float.{Float32}
use pression.Plugin.Codec.{Build, Results, compress, decompress}
use pression.Plugin.Dims.{Dims, has_flag, count_pixels, ignore_alpha_flag}
use pression.Plugin.Swizzle.RleYuv.{
  no_swizzle4, no_deswizzle4, no_swizzle3, no_deswizzle3, swizzle_uint32, deswizzle_uint32,
  swizzle_uint24, deswizzle_uint24,
}

-- `_rleMarker`.
abbrev pub marker : ℕ
marker = 0x42

-- The template arguments of `CompressorRLEYUV` with and without alpha.
abbrev pub rle_yuv_format : Bool → Format
rle_yuv_format true = use_alpha (record { split = no_swizzle4; join = no_deswizzle4 })
rle_yuv_format false = no_alpha (record { split = no_swizzle3; join = no_deswizzle3 })

-- `CompressorRLEYUV::compress`.
unfoldable pub rle_yuv_compress : Float32 → Build → List ℕ → ℕ → Bool → Results → Option Results
unfolding compress
rle_yuv_compress fl build image n_pixels alpha r =
    compress fl marker 0xff 4 (rle_yuv_format alpha) build n_pixels image r

-- `CompressorRLEYUV::decompress`.
unfoldable pub rle_yuv_decompress : Float32 → List (List ℕ) → List ℕ → Dims → ℕ → Option (List ℕ)
unfolding decompress count_pixels has_flag
rle_yuv_decompress fl inputs out dims flags =
    decompress fl marker 0xff 4 (rle_yuv_format (not (has_flag flags ignore_alpha_flag)))
      (count_pixels dims flags) inputs out

-- The template arguments of `CompressorDiffRLEYUV` with and without alpha.
abbrev pub diff_rle_yuv_format : Bool → Format
diff_rle_yuv_format true = use_alpha (record { split = swizzle_uint32; join = deswizzle_uint32 })
diff_rle_yuv_format false = no_alpha (record { split = swizzle_uint24; join = deswizzle_uint24 })

-- `CompressorDiffRLEYUV::compress`.
unfoldable pub diff_rle_yuv_compress :
    Float32 → Build → List ℕ → ℕ → Bool → Results → Option Results
unfolding compress
diff_rle_yuv_compress fl build image n_pixels alpha r =
    compress fl marker 0xff 4 (diff_rle_yuv_format alpha) build n_pixels image r

-- `CompressorDiffRLEYUV::decompress`.
unfoldable pub diff_rle_yuv_decompress :
    Float32 → List (List ℕ) → List ℕ → Dims → ℕ → Option (List ℕ)
unfolding decompress count_pixels has_flag
diff_rle_yuv_decompress fl inputs out dims flags =
    decompress fl marker 0xff 4 (diff_rle_yuv_format (not (has_flag flags ignore_alpha_flag)))
      (count_pixels dims flags) inputs out
