-- ===== src/Plugin/Engine/Rle565.antt =====
-- The compressor classes of pression/compressor/compressorRLE565.cpp.
use pression.Base.{ℕ, Bool, true, false, List, Option, not}
use pression.Plugin.Types.{Format, use_alpha, no_alpha}
use pression.Plugin.Float.{Float32}
use pression.Plugin.Codec.{Build, Results, compress, decompress}
use pression.Plugin.Dims.{Dims, has_flag, count_pixels, ignore_alpha_flag}
use pression.Plugin.Swizzle.Rle565.{
  swizzle_uint32, deswizzle_uint32, swizzle_uint24, deswizzle_uint24,
}

-- `_rleMarker`.
abbrev pub marker : ℕ
marker = 0x17

-- The template arguments of `CompressorRLE565` with and without alpha.
abbrev pub rle565_format : Bool → Format
rle565_format true = use_alpha (record { split = swizzle_uint32; join = deswizzle_uint32 })
rle565_format false = no_alpha (record { split = swizzle_uint24; join = deswizzle_uint24 })

-- `CompressorRLE565::compress`.
unfoldable pub rle565_compress : Float32 → Build → List ℕ → ℕ → Bool → Results → Option Results
unfolding compress
rle565_compress fl build image n_pixels alpha r =
    compress fl marker 0xff 4 (rle565_format alpha) build n_pixels image r

-- `CompressorRLE565::decompress`.
unfoldable pub rle565_decompress : Float32 → List (List ℕ) → List ℕ → Dims → ℕ → Option (List ℕ)
unfolding decompress count_pixels has_flag
rle565_decompress fl inputs out dims flags =
    decompress fl marker 0xff 4 (rle565_format (not (has_flag flags ignore_alpha_flag)))
      (count_pixels dims flags) inputs out
