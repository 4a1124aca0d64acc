-- ===== src/Plugin/Engines.antt =====
-- What REGISTER_ENGINE of pression/compressor/compressorRLE.ipp registers, and for which names of
-- pression/plugins/compressorTypes.h and token types of pression/plugins/compressorTokens.h.
use pression.Base.{ℕ, Bool, true, false, if◌then◌else◌, List, [], ◌∷◌, Option, none, ◌|||◌}
use pression.Plugin.Dims.{data_1d_flag, data_2d_flag, ignore_alpha_flag}
use pression.Plugin.Class.{
  Class, rle4b, diff_rle4b, rle_yuv, diff_rle_yuv, rle565, rle10a2, rle4hf, diff_rle4hf,
}

-- `EqCompressorInfo`, with quality, ratio and speed in hundredths.
pub record Info : Type 0 where
  pub version : ℕ
  pub capabilities : ℕ
  pub quality : ℕ
  pub ratio : ℕ
  pub speed : ℕ
  pub name : ℕ
  pub token_type : ℕ

-- `Compressor::Functions`: what `getInfo` gives, the class that the other pointers belong to, and `isCompatible`,
-- from a GL context, or `none` for the null pointer.
pub record Functions : Type 0 where
  pub name : ℕ
  pub info : Info
  pub class : Class
  pub is_compatible : Option (ℕ → Bool)

-- `REGISTER_ENGINE`.
unfoldable pub engine : Class → ℕ → ℕ → ℕ → ℕ → ℕ → Bool → Functions
engine c name type quality ratio speed alpha = record {
  name = name;
  info = record {
    version = 4;
    capabilities =
        if alpha
        then data_1d_flag ||| data_2d_flag ||| ignore_alpha_flag
        else data_1d_flag ||| data_2d_flag;
    quality = quality;
    ratio = ratio;
    speed = speed;
    name = name;
    token_type = type;
  };
  class = c;
  is_compatible = none;
}

-- The engines of compressorRLE4B.cpp.
unfoldable pub rle4b_engines : List Functions
unfolding engine
rle4b_engines =
    engine rle4b 0x21 0x1908 100 59 100 true
    ∷ engine rle4b 0x22 0x401 100 59 100 true
    ∷ engine rle4b 0x23 0x1000 100 59 100 true
    ∷ engine rle4b 0x24 0x1001 100 59 100 true
    ∷ engine rle4b 0x25 0x8059 100 59 100 true
    ∷ engine rle4b 0x26 0x801 100 59 100 true
    ∷ engine rle4b 0x27 0x2 100 59 100 false
    ∷ engine diff_rle4b 0x10 0x1908 100 50 110 true
    ∷ engine diff_rle4b 0x11 0x401 100 50 110 true
    ∷ engine diff_rle4b 0x12 0x1000 100 50 110 true
    ∷ engine diff_rle4b 0x13 0x1001 100 50 110 true
    ∷ []

-- The engines of compressorRLE4HF.cpp.
unfoldable pub rle4hf_engines : List Functions
unfolding engine
rle4hf_engines =
    engine rle4hf 0x17 0x881a 100 70 100 true
    ∷ engine rle4hf 0x18 0x3 100 70 100 true
    ∷ engine diff_rle4hf 0x19 0x881a 100 90 100 true
    ∷ engine diff_rle4hf 0x1a 0x3 100 90 100 true
    ∷ []

-- The engines of compressorRLE565.cpp.
unfoldable pub rle565_engines : List Functions
unfolding engine
rle565_engines =
    engine rle565 0x1b 0x1908 70 10 110 true
    ∷ engine rle565 0x1c 0x401 70 10 110 true
    ∷ engine rle565 0x1d 0x1000 70 10 110 true
    ∷ engine rle565 0x1e 0x1001 70 10 110 true
    ∷ []

-- The engine of compressorRLE10A2.cpp, and those of compressorRLEYUV.cpp.
unfoldable pub rle10a2_engines : List Functions
unfolding engine
rle10a2_engines = engine rle10a2 0xc 0x801 100 57 100 true ∷ []

unfoldable pub rle_yuv_engines : List Functions
unfolding engine
rle_yuv_engines =
    engine rle_yuv 0xf 0x1004 100 59 100 true ∷ engine diff_rle_yuv 0xe 0x1004 100 50 110 true ∷ []
