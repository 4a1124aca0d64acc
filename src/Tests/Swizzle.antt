-- ===== src/Tests/Swizzle.antt =====
-- The swizzle classes at concrete pixels.
use pression.Base.{◌≡◌, arith, ◌&&&◌, ◌|||◌}
use pression.Plugin.Swizzle.Rle565 as Rle565
use pression.Plugin.Swizzle.Rle565.Loss.{deswizzle_uint32-kept4}

deswizzle_uint32-kept4_example :
    Rle565.deswizzle_uint32 (Rle565.swizzle_uint32 0x92345678)
    ≡ (0x92345678 &&& 0x80f8f8f8) ||| 0x3f040404
deswizzle_uint32-kept4_example = deswizzle_uint32-kept4 0x92345678 (omega arith)
