-- ===== src/Plugin/Swizzle/Rle4B/Inverse.antt =====
-- Deswizzling undoes swizzling in compressorRLE4B.cpp.
use pression.Base.{ℕ, ◌%◌, ◌^◌, ◌<◌, ◌≡◌, refl, ap, ◌∙◌, arith, u32}
use pression.Base.Linear.{
  Linear, linear_rules, Linear-ext, agree, comp-Linear, low-Linear, id-Linear,
}
use pression.Plugin.Swizzle.Sums.{
  union3_bytes, union4_bytes, union4, union4-Linear, union3, union3-Linear,
}
use pression.Plugin.Swizzle.Rle4B.{
  no_swizzle4, no_swizzle3, no_deswizzle4, no_deswizzle3, swizzle_uint32_bits, swizzle_uint32,
  deswizzle_uint32_bits, deswizzle_uint32, swizzle_uint24_bits, swizzle_uint24,
  deswizzle_uint24_bits, deswizzle_uint24,
}

no_deswizzle4-union : (x : ℕ) → no_deswizzle4 (no_swizzle4 x) ≡ union4 x
unfolding no_deswizzle4 no_swizzle4 union4
no_deswizzle4-union x =
    ap (λ (t : ℕ). u32 t) (union4_bytes _ _ _ _ (omega arith) (omega arith) (omega arith))

-- Deswizzling a 32-bit pixel's components gives the pixel back.
pub no_deswizzle4-no_swizzle4 : (x : ℕ) → x < 2 ^ 32 → no_deswizzle4 (no_swizzle4 x) ≡ x
unfolding union4 agree
no_deswizzle4-no_swizzle4 x h =
    no_deswizzle4-union x ∙ Linear-ext 32 union4-Linear id-Linear refl x h

-- Deswizzling by `SwizzleUInt32` gives a 32-bit pixel that it swizzled back.
pub deswizzle_uint32-swizzle_uint32 : (x : ℕ) → x < 2 ^ 32 → deswizzle_uint32 (swizzle_uint32 x) ≡ x
unfolding deswizzle_uint32 swizzle_uint32 no_deswizzle4 union4 agree swizzle_uint32_bits
    deswizzle_uint32_bits
deswizzle_uint32-swizzle_uint32 x h =
    ap deswizzle_uint32_bits (no_deswizzle4-union (swizzle_uint32_bits x))
    ∙ Linear-ext 32 (comp-Linear out (comp-Linear union4-Linear into)) id-Linear refl x h
  where
    into : Linear swizzle_uint32_bits
    into = search linear_rules depth 14

    out : Linear deswizzle_uint32_bits
    out = search linear_rules depth 14

no_deswizzle3-union : (x : ℕ) → no_deswizzle3 (no_swizzle3 x) ≡ union3 x
unfolding no_deswizzle3 no_swizzle3 union3
no_deswizzle3-union x = ap (λ (t : ℕ). u32 t) (union3_bytes _ _ _ (omega arith) (omega arith))

-- Without alpha the pixel comes back with its top byte cleared.
pub no_deswizzle3-no_swizzle3 : (x : ℕ) → x < 2 ^ 32 → no_deswizzle3 (no_swizzle3 x) ≡ x % 2 ^ 24
unfolding union3 agree
no_deswizzle3-no_swizzle3 x h =
    no_deswizzle3-union x ∙ Linear-ext 32 union3-Linear (low-Linear 24 id-Linear) refl x h

-- Deswizzling by `SwizzleUInt24` gives a 32-bit pixel that it swizzled back with its top byte cleared.
pub deswizzle_uint24-swizzle_uint24 :
    (x : ℕ) → x < 2 ^ 32 → deswizzle_uint24 (swizzle_uint24 x) ≡ x % 2 ^ 24
unfolding deswizzle_uint24 swizzle_uint24 no_deswizzle3 union3 agree swizzle_uint24_bits
    deswizzle_uint24_bits
deswizzle_uint24-swizzle_uint24 x h =
    ap deswizzle_uint24_bits (no_deswizzle3-union (swizzle_uint24_bits x))
    ∙ Linear-ext 32 (comp-Linear out (comp-Linear union3-Linear into)) (low-Linear 24 id-Linear)
        refl x h
  where
    into : Linear swizzle_uint24_bits
    into = search linear_rules depth 14

    out : Linear deswizzle_uint24_bits
    out = search linear_rules depth 14
