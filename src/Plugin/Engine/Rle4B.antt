-- ===== src/Plugin/Engine/Rle4B.antt =====
-- The compressor classes of pression/compressor/compressorRLE4B.cpp.
use pression.Base.{ℕ, Bool, true, false, List, Option, not}
use pression.Plugin.Types.{Format, use_alpha, no_alpha}
use pression.Plugin.Float.{Float32}
use pression.Plugin.Codec.{Build, Results, compress, decompress}
use pression.Plugin.Dims.{Dims, has_flag, count_pixels, ignore_alpha_flag}
use pression.Plugin.Swizzle.Rle4B.{
  no_swizzle4, no_deswizzle4, no_swizzle3, no_deswizzle3, swizzle_uint32, deswizzle_uint32,
  swizzle_uint24, deswizzle_uint24,
}

-- `_rleMarker`.
abbrev pub marker : ℕ
marker = 0x42

-- The template arguments of `CompressorRLE4B` with and without alpha.
abbrev pub rle4b_format : Bool → Format
rle4b_format true = use_alpha (record { split = no_swizzle4; join = no_deswizzle4 })
rle4b_format false = no_alpha (record { split = no_swizzle3; join = no_deswizzle3 })

-- `CompressorRLE4B::compress`.
unfoldable pub rle4b_compress : Float32 → Build → List ℕ → ℕ → Bool → Results → Option Results
unfolding compress
rle4b_compress fl build image n_pixels alpha r =
    compress fl marker 0xff 4 (rle4b_format alpha) build n_pixels image r

-- `CompressorRLE4B::decompress`.
unfoldable pub rle4b_decompress : Float32 → List (List ℕ) → List ℕ → Dims → ℕ → Option (List ℕ)
unfolding decompress count_pixels has_flag
rle4b_decompress fl inputs out dims flags =
    decompress fl marker 0xff 4 (rle4b_format (not (has_flag flags ignore_alpha_flag)))
      (count_pixels dims flags) inputs out

-- The template arguments of `CompressorDiffRLE4B` with and without alpha.
abbrev pub diff_rle4b_format : Bool → Format
diff_rle4b_format true = use_alpha (record { split = swizzle_uint32; join = deswizzle_uint32 })
diff_rle4b_format false = no_alpha (record { split = swizzle_uint24; join = deswizzle_uint24 })

-- `CompressorDiffRLE4B::compress`.
unfoldable pub diff_rle4b_compress : Float32 → Build → List ℕ → ℕ → Bool → Results → Option Results
unfolding compress
diff_rle4b_compress fl build image n_pixels alpha r =
    compress fl marker 0xff 4 (diff_rle4b_format alpha) build n_pixels image r

-- `CompressorDiffRLE4B::decompress`.
unfoldable pub diff_rle4b_decompress : Float32 → List (List ℕ) → List ℕ → Dims → ℕ → Option (List ℕ)
unfolding decompress count_pixels has_flag
diff_rle4b_decompress fl inputs out dims flags =
    decompress fl marker 0xff 4 (diff_rle4b_format (not (has_flag flags ignore_alpha_flag)))
      (count_pixels dims flags) inputs out
