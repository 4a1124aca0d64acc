-- ===== src/Plugin/Swizzle/Rle4Hf.antt =====
-- The swizzle classes of pression/compressor/compressorRLE4HF.cpp: four half floats in 64 bits.
pub mod Inverse
use pression.Base.{
  ℕ, ◌+◌, ◌*◌, ◌/◌, ◌%◌, ◌^◌, List, [], ◌∷◌, u8, u16, u32, u64, ◌<<<◌, ◌>>>◌, ◌|||◌, ◌&&&◌, lb_bits,
}
use pression.Plugin.Types.{Quad, Triple}

-- `NoSwizzle::swizzle`, with and without alpha.
unfoldable pub no_swizzle4 : ℕ → Quad
no_swizzle4 input = record {
  one = u16 (input &&& 0xffff);
  two = u16 ((input &&& 0xffff0000) >>> 16);
  three = u16 ((input &&& 0xffff00000000) >>> 32);
  four = u16 ((input &&& 0xffff000000000000) >>> 48);
}

unfoldable pub no_swizzle3 : ℕ → Triple
no_swizzle3 input = record {
  one = u16 (input &&& 0xffff);
  two = u16 ((input &&& 0xffff0000) >>> 16);
  three = u16 ((input &&& 0xffff00000000) >>> 32);
}

-- `NoSwizzle::deswizzle`.
unfoldable pub no_deswizzle4 : Quad → ℕ
no_deswizzle4 q = u64 (q.one + (q.two <<< 16) + (q.three <<< 32) + (q.four <<< 48))

unfoldable pub no_deswizzle3 : Triple → ℕ
no_deswizzle3 t = u64 (t.one + (t.two <<< 16) + (t.three <<< 32))

-- `Swizzle::swizzle` with alpha: the bits that are handed to `NoSwizzle`.
unfoldable pub swizzle4_bits : ℕ → ℕ
swizzle4_bits input =
    (input &&& 0xffc0000007c0001f)
    ||| ((input &&& 0x3f0000) >>> 11)
    ||| ((input &&& 0x7ff00000000) >>> 21)
    ||| (u64 ((input &&& 0xc0003fe0) <<< 22))
    ||| (u64 ((input &&& 0x38000000) <<< 9))
    ||| ((input &&& 0x3f000000000000) >>> 9)
    ||| (u64 ((input &&& 0xf80000000000) <<< 2))
    ||| (u64 ((input &&& 0xc000) <<< 36))

unfoldable pub swizzle4 : ℕ → Quad
unfolding no_swizzle4
swizzle4 input = no_swizzle4 (swizzle4_bits input)

-- `Swizzle::swizzle` without alpha.
unfoldable pub swizzle3_bits : ℕ → ℕ
swizzle3_bits input =
    (input &&& 0xc073070c380)
    ||| ((input &&& 0x3c000000000) >>> 38)
    ||| ((input &&& 0x3800000) >>> 19)
    ||| ((input &&& 0xc00000000000) >>> 36)
    ||| ((input &&& 0x3000c0000000) >>> 18)
    ||| (u64 ((input &&& 0x78) <<< 13))
    ||| ((input &&& 0x3800000000) >>> 12)
    ||| (u64 ((input &&& 0xc00) <<< 36))
    ||| (u64 ((input &&& 0x7) <<< 39))
    ||| (u64 ((input &&& 0xc003000) <<< 18))
    ||| (u64 ((input &&& 0xf0000) <<< 19))

unfoldable pub swizzle3 : ℕ → Triple
unfolding no_swizzle3
swizzle3 input = no_swizzle3 (swizzle3_bits input)

-- `Swizzle::deswizzle` with alpha, of what `NoSwizzle` puts together.
unfoldable pub deswizzle4_bits : ℕ → ℕ
deswizzle4_bits input =
    (input &&& 0xffc0000007c0001f)
    ||| (u64 ((input &&& 0x7e0) <<< 11))
    ||| (u64 ((input &&& 0x3ff800) <<< 21))
    ||| ((input &&& 0x30000ff8000000) >>> 22)
    ||| ((input &&& 0x7000000000) >>> 9)
    ||| (u64 ((input &&& 0x1f8000000000) <<< 9))
    ||| ((input &&& 0x3e00000000000) >>> 2)
    ||| ((input &&& 0xc000000000000) >>> 36)

unfoldable pub deswizzle4 : Quad → ℕ
unfolding no_deswizzle4
deswizzle4 q = deswizzle4_bits (no_deswizzle4 q)

-- `Swizzle::deswizzle` without alpha.
unfoldable pub deswizzle3_bits : ℕ → ℕ
deswizzle3_bits input =
    (input &&& 0xc073070c380)
    ||| (u64 ((input &&& 0xf) <<< 38))
    ||| (u64 ((input &&& 0x70) <<< 19))
    ||| (u64 ((input &&& 0xc00) <<< 36))
    ||| (u64 ((input &&& 0xc003000) <<< 18))
    ||| ((input &&& 0xf0000) >>> 13)
    ||| (u64 ((input &&& 0x3800000) <<< 12))
    ||| ((input &&& 0xc00000000000) >>> 36)
    ||| ((input &&& 0x38000000000) >>> 39)
    ||| ((input &&& 0x3000c0000000) >>> 18)
    ||| ((input &&& 0x7800000000) >>> 19)

unfoldable pub deswizzle3 : Triple → ℕ
unfolding no_deswizzle3
deswizzle3 t = deswizzle3_bits (no_deswizzle3 t)
