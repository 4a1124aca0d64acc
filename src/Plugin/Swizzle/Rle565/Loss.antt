-- ===== src/Plugin/Swizzle/Rle565/Loss.antt =====
-- What compressorRLE565.cpp keeps of a pixel.
use pression.Base.{ℕ, ◌^◌, ◌<◌, ◌≡◌, refl, ap, ◌∙◌, arith, u32, ◌|||◌, ◌&&&◌}
use pression.Base.Linear.{Linear, linear_rules, Linear-ext, agree, comp-Linear}
use pression.Plugin.Swizzle.Sums.{
  union3_bytes, union4_bytes, union4, union4-Linear, union3, union3-Linear,
}
use pression.Plugin.Swizzle.Rle565.{
  swizzle_uint32_bits, swizzle_uint32, deswizzle_uint32_bits, deswizzle_uint32, swizzle_uint24_bits,
  swizzle_uint24, deswizzle_uint24_bits, deswizzle_uint24,
}

-- With alpha: of each colour the upper five bits are kept, and of alpha the uppermost; the first
-- bit below a kept colour field is set, and all lower bits of alpha, but for the last.
pub kept4 : ℕ → ℕ
kept4 x = (x &&& 0x80f8f8f8) ||| 0x3f040404

kept4-Linear : Linear kept4
unfolding kept4
kept4-Linear = search linear_rules depth 14

-- Of a 32-bit pixel that is swizzled with alpha and deswizzled, the upper five bits of each colour and
-- the uppermost bit of alpha come back. Of the other bits, those of 0x3f040404 come back set.
pub deswizzle_uint32-kept4 :
    (x : ℕ) → x < 2 ^ 32 → deswizzle_uint32 (swizzle_uint32 x) ≡ (x &&& 0x80f8f8f8) ||| 0x3f040404
unfolding deswizzle_uint32 swizzle_uint32 union4 agree swizzle_uint32_bits deswizzle_uint32_bits
    kept4
deswizzle_uint32-kept4 x h =
    ap (λ (t : ℕ). deswizzle_uint32_bits (u32 t))
      (union4_bytes _ _ _ _ (omega arith) (omega arith) (omega arith))
    ∙ Linear-ext 32 (comp-Linear out (comp-Linear union4-Linear into)) kept4-Linear refl x h
  where
    into : Linear swizzle_uint32_bits
    into = search linear_rules depth 14

    out : Linear deswizzle_uint32_bits
    out = search linear_rules depth 14

-- Without alpha: five, six and five bits of the colours are kept.
pub kept3 : ℕ → ℕ
kept3 x = (x &&& 0xf8fcf8) ||| 0x020202

kept3-Linear : Linear kept3
unfolding kept3
kept3-Linear = search linear_rules depth 14

-- Of a 32-bit pixel that is swizzled without alpha and deswizzled, five, six and five bits of the
-- colours come back. Of the other bits, those of 0x020202 come back set.
pub deswizzle_uint24-kept3 :
    (x : ℕ) → x < 2 ^ 32 → deswizzle_uint24 (swizzle_uint24 x) ≡ (x &&& 0xf8fcf8) ||| 0x020202
unfolding deswizzle_uint24 swizzle_uint24 union3 agree swizzle_uint24_bits deswizzle_uint24_bits
    kept3
deswizzle_uint24-kept3 x h =
    ap (λ (t : ℕ). deswizzle_uint24_bits (u32 t)) (union3_bytes _ _ _ (omega arith) (omega arith))
    ∙ Linear-ext 32 (comp-Linear out (comp-Linear union3-Linear into)) kept3-Linear refl x h
  where
    into : Linear swizzle_uint24_bits
    into = search linear_rules depth 14

    out : Linear deswizzle_uint24_bits
    out = search linear_rules depth 14
