-- ===== src/Plugin/Swizzle/Rle4B.antt =====
-- The swizzle classes of pression/compressor/compressorRLE4B.cpp. The overloads that only assert
-- are never instantiated by a caller and are left out.
pub mod Inverse
use pression.Base.{
  ℕ, ◌+◌, ◌*◌, ◌/◌, ◌%◌, ◌^◌, List, [], ◌∷◌, u8, u32, ◌<<<◌, ◌>>>◌, ◌|||◌, ◌&&&◌, lb_bits,
}
use pression.Plugin.Types.{Quad, Triple}

-- `NoSwizzle::swizzle`, with and without alpha.
unfoldable pub no_swizzle4 : ℕ → Quad
no_swizzle4 input = record {
  one = u8 (input &&& 0xff);
  two = u8 ((input &&& 0xff00) >>> 8);
  three = u8 ((input &&& 0xff0000) >>> 16);
  four = u8 ((input &&& 0xff000000) >>> 24);
}

unfoldable pub no_swizzle3 : ℕ → Triple
no_swizzle3 input = record {
  one = u8 (input &&& 0xff);
  two = u8 ((input &&& 0xff00) >>> 8);
  three = u8 ((input &&& 0xff0000) >>> 16);
}

-- `NoSwizzle::deswizzle`; the sum is converted to 32 bits.
unfoldable pub no_deswizzle4 : Quad → ℕ
no_deswizzle4 q = u32 (q.one + (q.two <<< 8) + (q.three <<< 16) + (q.four <<< 24))

unfoldable pub no_deswizzle3 : Triple → ℕ
no_deswizzle3 t = u32 (t.one + (t.two <<< 8) + (t.three <<< 16))

-- `SwizzleUInt32::swizzle`: the bits that are handed to `NoSwizzle`.
unfoldable pub swizzle_uint32_bits : ℕ → ℕ
swizzle_uint32_bits input =
    (input &&& (lb_bits (32 ∷ 31 ∷ 22 ∷ 21 ∷ 12 ∷ 11 ∷ 2 ∷ 1 ∷ [])))
    ||| (u32 ((input &&& (lb_bits (8 ∷ 7 ∷ []))) <<< 18))
    ||| (u32 ((input &&& (lb_bits (24 ∷ 23 ∷ 14 ∷ 13 ∷ []))) <<< 6))
    ||| (u32 ((input &&& (lb_bits (16 ∷ 15 ∷ 6 ∷ 5 ∷ 4 ∷ 3 ∷ []))) <<< 12))
    ||| ((input &&& (lb_bits (28 ∷ 27 ∷ 26 ∷ 25 ∷ []))) >>> 18)
    ||| ((input &&& (lb_bits (18 ∷ 17 ∷ []))) >>> 12)
    ||| ((input &&& (lb_bits (30 ∷ 29 ∷ 20 ∷ 19 ∷ 10 ∷ 9 ∷ []))) >>> 6)

unfoldable pub swizzle_uint32 : ℕ → Quad
unfolding no_swizzle4
swizzle_uint32 input = no_swizzle4 (swizzle_uint32_bits input)

-- `SwizzleUInt32::deswizzle`.
unfoldable pub deswizzle_uint32_bits : ℕ → ℕ
deswizzle_uint32_bits input =
    (input &&& (lb_bits (32 ∷ 31 ∷ 22 ∷ 21 ∷ 11 ∷ 12 ∷ 2 ∷ 1 ∷ [])))
    ||| ((input &&& (lb_bits (26 ∷ 25 ∷ []))) >>> 18)
    ||| ((input &&& (lb_bits (30 ∷ 29 ∷ 20 ∷ 19 ∷ []))) >>> 6)
    ||| ((input &&& (lb_bits (28 ∷ 27 ∷ 18 ∷ 17 ∷ 16 ∷ 15 ∷ []))) >>> 12)
    ||| (u32 ((input &&& (lb_bits (10 ∷ 9 ∷ 8 ∷ 7 ∷ []))) <<< 18))
    ||| (u32 ((input &&& (lb_bits (6 ∷ 5 ∷ []))) <<< 12))
    ||| (u32 ((input &&& (lb_bits (24 ∷ 23 ∷ 14 ∷ 13 ∷ 4 ∷ 3 ∷ []))) <<< 6))

unfoldable pub deswizzle_uint32 : Quad → ℕ
deswizzle_uint32 q =
    deswizzle_uint32_bits (u32 (q.one + (q.two <<< 8) + (q.three <<< 16) + (q.four <<< 24)))

-- `SwizzleUInt24::swizzle`.
unfoldable pub swizzle_uint24_bits : ℕ → ℕ
swizzle_uint24_bits input =
    (input &&& (lb_bits (24 ∷ 23 ∷ 22 ∷ 13 ∷ 12 ∷ 3 ∷ 2 ∷ 1 ∷ [])))
    ||| (u32 ((input &&& (lb_bits (16 ∷ 15 ∷ 14 ∷ []))) <<< 5))
    ||| ((input &&& (lb_bits (11 ∷ 10 ∷ 9 ∷ []))) >>> 5)
    ||| (u32 ((input &&& (lb_bits (8 ∷ 7 ∷ 6 ∷ 5 ∷ 4 ∷ []))) <<< 10))
    ||| ((input &&& (lb_bits (21 ∷ 20 ∷ 19 ∷ 18 ∷ 17 ∷ []))) >>> 10)

unfoldable pub swizzle_uint24 : ℕ → Triple
unfolding no_swizzle3
swizzle_uint24 input = no_swizzle3 (swizzle_uint24_bits input)

-- `SwizzleUInt24::deswizzle`.
unfoldable pub deswizzle_uint24_bits : ℕ → ℕ
deswizzle_uint24_bits input =
    (input &&& (lb_bits (24 ∷ 23 ∷ 22 ∷ 13 ∷ 12 ∷ 3 ∷ 2 ∷ 1 ∷ [])))
    ||| ((input &&& (lb_bits (21 ∷ 20 ∷ 19 ∷ []))) >>> 5)
    ||| (u32 ((input &&& (lb_bits (6 ∷ 5 ∷ 4 ∷ []))) <<< 5))
    ||| ((input &&& (lb_bits (18 ∷ 17 ∷ 16 ∷ 15 ∷ 14 ∷ []))) >>> 10)
    ||| (u32 ((input &&& (lb_bits (11 ∷ 10 ∷ 9 ∷ 8 ∷ 7 ∷ []))) <<< 10))

unfoldable pub deswizzle_uint24 : Triple → ℕ
deswizzle_uint24 t = deswizzle_uint24_bits (u32 (t.one + (t.two <<< 8) + (t.three <<< 16)))
