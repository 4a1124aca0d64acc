-- ===== src/Plugin/Engine/Rle10A2.antt =====
-- The compressor classes of pression/compressor/compressorRLE10A2.cpp.
use pression.Base.{ℕ, Bool, List, Option}
use pression.Plugin.Types.{Format, use_alpha}
use pression.Plugin.Float.{Float32}
use pression.Plugin.Codec.{Build, Results, compress, decompress}
use pression.Plugin.Dims.{Dims, has_flag, count_pixels}
use pression.Plugin.Swizzle.Rle10A2.{swizzle_uint32, deswizzle_uint32}

-- `_rleMarker`.
abbrev pub marker : ℕ
marker = 0x42

-- The template arguments of `CompressorRLE10A2`, whose alpha channel is always kept.
abbrev pub rle10a2_format : Format
rle10a2_format = use_alpha (record { split = swizzle_uint32; join = deswizzle_uint32 })

-- `CompressorRLE10A2::compress`.
unfoldable pub rle10a2_compress : Float32 → Build → List ℕ → ℕ → Bool → Results → Option Results
unfolding compress
rle10a2_compress fl build image n_pixels alpha r =
    compress fl marker 0xff 4 (rle10a2_format) build n_pixels image r

-- `CompressorRLE10A2::decompress`.
unfoldable pub rle10a2_decompress : Float32 → List (List ℕ) → List ℕ → Dims → ℕ → Option (List ℕ)
unfolding decompress count_pixels has_flag
rle10a2_decompress fl inputs out dims flags =
    decompress fl marker 0xff 4 (rle10a2_format) (count_pixels dims flags) inputs out
