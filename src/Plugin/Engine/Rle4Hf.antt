-- ===== src/Plugin/Engine/Rle4Hf.antt =====
-- The compressor classes of pression/compressor/compressorRLE4HF.cpp.
use pression.Base.{ℕ, Bool, true, false, List, Option, not}
use pression.Plugin.Types.{Format, use_alpha, no_alpha}
use pression.Plugin.Float.{Float32}
use pression.Plugin.Codec.{Build, Results, compress, decompress}
use pression.Plugin.Dims.{Dims, has_flag, count_pixels, ignore_alpha_flag}
use pression.Plugin.Swizzle.Rle4Hf.{
  no_swizzle4, no_deswizzle4, no_swizzle3, no_deswizzle3, swizzle4, deswizzle4, swizzle3,
  deswizzle3,
}

-- `_rleMarker`.
abbrev pub marker : ℕ
marker = 0xffff

-- The template arguments of `CompressorRLE4HF` with and without alpha.
abbrev pub rle4hf_format : Bool → Format
rle4hf_format true = use_alpha (record { split = no_swizzle4; join = no_deswizzle4 })
rle4hf_format false = no_alpha (record { split = no_swizzle3; join = no_deswizzle3 })

-- `CompressorRLE4HF::compress`.
unfoldable pub rle4hf_compress : Float32 → Build → List ℕ → ℕ → Bool → Results → Option Results
unfolding compress
rle4hf_compress fl build image n_pixels alpha r =
    compress fl marker 0xffff 8 (rle4hf_format alpha) build n_pixels image r

-- `CompressorRLE4HF::decompress`.
unfoldable pub rle4hf_decompress : Float32 → List (List ℕ) → List ℕ → Dims → ℕ → Option (List ℕ)
unfolding decompress count_pixels has_flag
rle4hf_decompress fl inputs out dims flags =
    decompress fl marker 0xffff 8 (rle4hf_format (not (has_flag flags ignore_alpha_flag)))
      (count_pixels dims flags) inputs out

-- The template arguments of `CompressorDiffRLE4HF` with and without alpha.
abbrev pub diff_rle4hf_format : Bool → Format
diff_rle4hf_format true = use_alpha (record { split = swizzle4; join = deswizzle4 })
diff_rle4hf_format false = no_alpha (record { split = swizzle3; join = deswizzle3 })

-- `CompressorDiffRLE4HF::compress`.
unfoldable pub diff_rle4hf_compress : Float32 → Build → List ℕ → ℕ → Bool → Results → Option Results
unfolding compress
diff_rle4hf_compress fl build image n_pixels alpha r =
    compress fl marker 0xffff 8 (diff_rle4hf_format alpha) build n_pixels image r

-- `CompressorDiffRLE4HF::decompress`.
unfoldable pub diff_rle4hf_decompress :
    Float32 → List (List ℕ) → List ℕ → Dims → ℕ → Option (List ℕ)
unfolding decompress count_pixels has_flag
diff_rle4hf_decompress fl inputs out dims flags =
    decompress fl marker 0xffff 8 (diff_rle4hf_format (not (has_flag flags ignore_alpha_flag)))
      (count_pixels dims flags) inputs out
