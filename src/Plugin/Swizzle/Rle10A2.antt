-- ===== src/Plugin/Swizzle/Rle10A2.antt =====
-- The swizzle class of pression/compressor/compressorRLE10A2.cpp. The overloads that only assert are
-- never instantiated and are left out.
pub mod Inverse
use pression.Base.{
  ℕ, ◌+◌, ◌*◌, ◌/◌, ◌%◌, ◌^◌, List, [], ◌∷◌, u8, u16, u32, u64, ◌<<<◌, ◌>>>◌, ◌|||◌, ◌&&&◌, lb_bits,
}
use pression.Plugin.Types.{Quad, Triple}

-- `SwizzleUInt32::swizzle`; each component is cut off at a byte.
unfoldable pub swizzle_uint32 : ℕ → Quad
swizzle_uint32 input = record {
  one = u8 (
      (input &&& 0xf)
      ||| ((input &&& (lb_bits (14 ∷ 13 ∷ []))) >>> 8)
      ||| ((input &&& (lb_bits (24 ∷ 23 ∷ []))) >>> 16));
  two = u8 (
      ((input &&& (lb_bits (26 ∷ 25 ∷ []))) >>> 24)
      ||| (input &&& (lb_bits (6 ∷ 5 ∷ [])))
      ||| ((input &&& (lb_bits (16 ∷ 15 ∷ []))) >>> 12)
      ||| ((input &&& (lb_bits (12 ∷ 11 ∷ []))) >>> 4));
  three = u8 (
      ((input &&& (lb_bits (28 ∷ 27 ∷ []))) >>> 22)
      ||| ((input &&& (lb_bits (18 ∷ 17 ∷ []))) >>> 14)
      ||| (input &&& (lb_bits (8 ∷ 7 ∷ [])))
      ||| ((input &&& (lb_bits (22 ∷ 21 ∷ []))) >>> 20));
  four = u8 (
      ((input &&& (lb_bits (32 ∷ 31 ∷ 30 ∷ 29 ∷ []))) >>> 24)
      ||| ((input &&& (lb_bits (20 ∷ 19 ∷ []))) >>> 16)
      ||| ((input &&& (lb_bits (10 ∷ 9 ∷ []))) >>> 8));
}

-- `SwizzleUInt32::deswizzle`: the shifts are done in `int`, and the union is converted to 32 bits.
unfoldable pub deswizzle_uint32 : Quad → ℕ
deswizzle_uint32 q = u32 (
    (q.one &&& 0xf)
    ||| ((q.one &&& (lb_bits (5 ∷ 6 ∷ []))) <<< 8)
    ||| ((q.one &&& (lb_bits (7 ∷ 8 ∷ []))) <<< 16)
    ||| ((q.two &&& (lb_bits (1 ∷ 2 ∷ []))) <<< 24)
    ||| ((q.two &&& (lb_bits (3 ∷ 4 ∷ []))) <<< 12)
    ||| (q.two &&& 0x30)
    ||| ((q.two &&& (lb_bits (7 ∷ 8 ∷ []))) <<< 4)
    ||| (q.three &&& 0xc0)
    ||| ((q.three &&& (lb_bits (6 ∷ 5 ∷ []))) <<< 22)
    ||| ((q.three &&& (lb_bits (4 ∷ 3 ∷ []))) <<< 14)
    ||| ((q.three &&& (lb_bits (2 ∷ 1 ∷ []))) <<< 20)
    ||| ((q.four &&& 0xf0) <<< 24)
    ||| ((q.four &&& (lb_bits (4 ∷ 3 ∷ []))) <<< 16)
    ||| ((q.four &&& (lb_bits (2 ∷ 1 ∷ []))) <<< 8))
