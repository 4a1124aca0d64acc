-- ===== src/Plugin/Swizzle/Rle4Hf/Inverse.antt =====
-- Deswizzling undoes swizzling in compressorRLE4HF.cpp.
use pression.Base.{
  ℕ, ◌%◌, ◌^◌, ◌<◌, ◌≡◌, refl, ap, ◌∙◌, arith, u16, u64, ◌<<<◌, ◌>>>◌, ◌|||◌, ◌&&&◌,
}
use pression.Base.Linear.{
  Linear, linear_rules, Linear-ext, agree, comp-Linear, low-Linear, id-Linear,
}
use pression.Plugin.Swizzle.Sums.{union3_halves, union4_halves}
use pression.Plugin.Swizzle.Rle4Hf.{
  no_swizzle4, no_swizzle3, no_deswizzle4, no_deswizzle3, swizzle4_bits, swizzle4, deswizzle4_bits,
  deswizzle4, swizzle3_bits, swizzle3, deswizzle3_bits, deswizzle3,
}

-- The components of a word, put together again: as a union of masked bits, and as the word itself.
union4 : ℕ → ℕ
union4 x = u64 (
    (u16 ((x &&& 0xffff000000000000) >>> 48) <<< 48)
    ||| ((u16 ((x &&& 0xffff00000000) >>> 32) <<< 32)
        ||| ((u16 ((x &&& 0xffff0000) >>> 16) <<< 16) ||| u16 (x &&& 0xffff))))

union4-Linear : Linear union4
unfolding union4
union4-Linear = search linear_rules depth 14

no_deswizzle4-union : (x : ℕ) → no_deswizzle4 (no_swizzle4 x) ≡ union4 x
unfolding no_deswizzle4 no_swizzle4 union4
no_deswizzle4-union x =
    ap (λ (t : ℕ). u64 t) (union4_halves _ _ _ _ (omega arith) (omega arith) (omega arith))

-- Deswizzling a 64-bit pixel's components gives the pixel back.
pub no_deswizzle4-no_swizzle4 : (x : ℕ) → x < 2 ^ 64 → no_deswizzle4 (no_swizzle4 x) ≡ x
unfolding union4 agree
no_deswizzle4-no_swizzle4 x h =
    no_deswizzle4-union x ∙ Linear-ext 64 union4-Linear id-Linear refl x h

-- Deswizzling by `Swizzle` with alpha gives a 64-bit pixel that it swizzled back.
pub deswizzle4-swizzle4 : (x : ℕ) → x < 2 ^ 64 → deswizzle4 (swizzle4 x) ≡ x
unfolding deswizzle4 swizzle4 no_deswizzle4 union4 agree swizzle4_bits deswizzle4_bits
deswizzle4-swizzle4 x h =
    ap deswizzle4_bits (no_deswizzle4-union (swizzle4_bits x))
    ∙ Linear-ext 64 (comp-Linear out (comp-Linear union4-Linear into)) id-Linear refl x h
  where
    into : Linear swizzle4_bits
    into = search linear_rules depth 14

    out : Linear deswizzle4_bits
    out = search linear_rules depth 14

union3 : ℕ → ℕ
union3 x = u64 (
    (u16 ((x &&& 0xffff00000000) >>> 32) <<< 32)
    ||| ((u16 ((x &&& 0xffff0000) >>> 16) <<< 16) ||| u16 (x &&& 0xffff)))

union3-Linear : Linear union3
unfolding union3
union3-Linear = search linear_rules depth 14

no_deswizzle3-union : (x : ℕ) → no_deswizzle3 (no_swizzle3 x) ≡ union3 x
unfolding no_deswizzle3 no_swizzle3 union3
no_deswizzle3-union x = ap (λ (t : ℕ). u64 t) (union3_halves _ _ _ (omega arith) (omega arith))

-- Without alpha the pixel comes back with its top 16 bits cleared.
pub no_deswizzle3-no_swizzle3 : (x : ℕ) → x < 2 ^ 64 → no_deswizzle3 (no_swizzle3 x) ≡ x % 2 ^ 48
unfolding union3 agree
no_deswizzle3-no_swizzle3 x h =
    no_deswizzle3-union x ∙ Linear-ext 64 union3-Linear (low-Linear 48 id-Linear) refl x h

-- Deswizzling by `Swizzle` without alpha gives a 64-bit pixel that it swizzled back with its top 16 bits
-- cleared.
pub deswizzle3-swizzle3 : (x : ℕ) → x < 2 ^ 64 → deswizzle3 (swizzle3 x) ≡ x % 2 ^ 48
unfolding deswizzle3 swizzle3 no_deswizzle3 union3 agree swizzle3_bits deswizzle3_bits
deswizzle3-swizzle3 x h =
    ap deswizzle3_bits (no_deswizzle3-union (swizzle3_bits x))
    ∙ Linear-ext 64 (comp-Linear out (comp-Linear union3-Linear into)) (low-Linear 48 id-Linear)
        refl x h
  where
    into : Linear swizzle3_bits
    into = search linear_rules depth 14

    out : Linear deswizzle3_bits
    out = search linear_rules depth 14
