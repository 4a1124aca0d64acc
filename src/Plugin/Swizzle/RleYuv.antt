-- ===== src/Plugin/Swizzle/RleYuv.antt =====
-- The swizzle classes of pression/compressor/compressorRLEYUV.cpp: the text of those classes is that
-- of compressorRLE4B.cpp, so each is the same function here.
use pression.Base.{ℕ}
use pression.Plugin.Types.{Quad, Triple}
use pression.Plugin.Swizzle.Rle4B

-- `NoSwizzle`.
unfoldable pub no_swizzle4 : ℕ → Quad
no_swizzle4 = Rle4B.no_swizzle4

unfoldable pub no_swizzle3 : ℕ → Triple
no_swizzle3 = Rle4B.no_swizzle3

unfoldable pub no_deswizzle4 : Quad → ℕ
no_deswizzle4 = Rle4B.no_deswizzle4

unfoldable pub no_deswizzle3 : Triple → ℕ
no_deswizzle3 = Rle4B.no_deswizzle3

-- `SwizzleUInt32` and `SwizzleUInt24`.
unfoldable pub swizzle_uint32 : ℕ → Quad
swizzle_uint32 = Rle4B.swizzle_uint32

unfoldable pub deswizzle_uint32 : Quad → ℕ
deswizzle_uint32 = Rle4B.deswizzle_uint32

unfoldable pub swizzle_uint24 : ℕ → Triple
swizzle_uint24 = Rle4B.swizzle_uint24

unfoldable pub deswizzle_uint24 : Triple → ℕ
deswizzle_uint24 = Rle4B.deswizzle_uint24
