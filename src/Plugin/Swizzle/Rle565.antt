-- ===== src/Plugin/Swizzle/Rle565.antt =====
-- The swizzle classes of pression/compressor/compressorRLE565.cpp: five or six bits of each colour
-- are kept. The overloads that only assert are never instantiated and are left out.
pub mod Loss
use pression.Base.{
  ℕ, ◌+◌, ◌*◌, ◌/◌, ◌%◌, ◌^◌, List, [], ◌∷◌, u8, u16, u32, u64, ◌<<<◌, ◌>>>◌, ◌|||◌, ◌&&&◌, lb_bits,
}
use pression.Plugin.Types.{Quad, Triple}

-- `NoSwizzle::swizzle`, with and without alpha.
unfoldable pub no_swizzle4 : ℕ → Quad
no_swizzle4 input = record {
  one = u8 (input &&& 0xff);
  two = u8 ((input &&& 0xff00) >>> 8);
  three = u8 ((input &&& 0xff0000) >>> 16);
  four = u8 ((input &&& 0xff000000) >>> 24);
}

unfoldable pub no_swizzle3 : ℕ → Triple
no_swizzle3 input = record {
  one = u8 (input &&& 0xff);
  two = u8 ((input &&& 0xff00) >>> 8);
  three = u8 ((input &&& 0xff0000) >>> 16);
}

-- `SwizzleUInt32::swizzle`: the bits that are handed to `NoSwizzle`.
unfoldable pub swizzle_uint32_bits : ℕ → ℕ
swizzle_uint32_bits input =
    ((input &&& (lb_bits (6 ∷ 5 ∷ 4 ∷ []))) >>> 3)
    ||| ((input &&& (lb_bits (14 ∷ 13 ∷ 12 ∷ []))) >>> 8)
    ||| (u32 ((input &&& (lb_bits (8 ∷ 7 ∷ []))) <<< 5))
    ||| ((input &&& (lb_bits (24 ∷ 23 ∷ 22 ∷ 21 ∷ 20 ∷ []))) >>> 13)
    ||| ((input &&& (lb_bits (16 ∷ 15 ∷ []))) >>> 1)
    ||| ((input &&& (lb_bits (32 ∷ []))) >>> 16)

unfoldable pub swizzle_uint32 : ℕ → Quad
unfolding no_swizzle4
swizzle_uint32 input = no_swizzle4 (swizzle_uint32_bits input)

-- `SwizzleUInt32::deswizzle`.
unfoldable pub deswizzle_uint32_bits : ℕ → ℕ
deswizzle_uint32_bits input =
    (u32 ((input &&& (lb_bits (3 ∷ 2 ∷ 1 ∷ []))) <<< 3))
    ||| (u32 ((input &&& (lb_bits (6 ∷ 5 ∷ 4 ∷ []))) <<< 8))
    ||| ((input &&& (lb_bits (13 ∷ 12 ∷ []))) >>> 5)
    ||| (u32 ((input &&& (lb_bits (11 ∷ 10 ∷ 9 ∷ 8 ∷ 7 ∷ []))) <<< 13))
    ||| (u32 ((input &&& (lb_bits (15 ∷ 14 ∷ []))) <<< 1))
    ||| (u32 ((input &&& (lb_bits (16 ∷ []))) <<< 16))
    ||| 0x3f040404

unfoldable pub deswizzle_uint32 : Quad → ℕ
deswizzle_uint32 q =
    deswizzle_uint32_bits (u32 (q.one + (q.two <<< 8) + (q.three <<< 16) + (q.four <<< 24)))

-- `SwizzleUInt24::swizzle`.
unfoldable pub swizzle_uint24_bits : ℕ → ℕ
swizzle_uint24_bits input =
    ((input &&& (lb_bits (6 ∷ 5 ∷ 4 ∷ []))) >>> 3)
    ||| ((input &&& (lb_bits (13 ∷ 12 ∷ 11 ∷ []))) >>> 7)
    ||| (u32 ((input &&& (lb_bits (8 ∷ 7 ∷ []))) <<< 5))
    ||| ((input &&& (lb_bits (24 ∷ 23 ∷ 22 ∷ 21 ∷ 20 ∷ []))) >>> 13)
    ||| (input &&& (lb_bits (16 ∷ 15 ∷ 14 ∷ [])))

unfoldable pub swizzle_uint24 : ℕ → Triple
unfolding no_swizzle3
swizzle_uint24 input = no_swizzle3 (swizzle_uint24_bits input)

-- `SwizzleUInt24::deswizzle`.
unfoldable pub deswizzle_uint24_bits : ℕ → ℕ
deswizzle_uint24_bits input =
    ((((((u32 ((input &&& (lb_bits (3 ∷ 2 ∷ 1 ∷ []))) <<< 3))
              ||| (u32 ((input &&& (lb_bits (6 ∷ 5 ∷ 4 ∷ []))) <<< 7)))
            ||| ((input &&& (lb_bits (13 ∷ 12 ∷ []))) >>> 5))
          ||| (u32 ((input &&& (lb_bits (11 ∷ 10 ∷ 9 ∷ 8 ∷ 7 ∷ []))) <<< 13)))
        ||| (input &&& (lb_bits (16 ∷ 15 ∷ 14 ∷ []))))
      &&& 0xf8fcf8)
    ||| 0x020202

unfoldable pub deswizzle_uint24 : Triple → ℕ
deswizzle_uint24 t = deswizzle_uint24_bits (u32 (t.one + (t.two <<< 8) + (t.three <<< 16)))
