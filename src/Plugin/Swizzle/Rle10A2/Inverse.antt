-- ===== src/Plugin/Swizzle/Rle10A2/Inverse.antt =====
-- Deswizzling undoes swizzling in compressorRLE10A2.cpp.
use pression.Base.{ℕ, ◌^◌, ◌<◌, ◌≡◌, refl}
use pression.Base.Linear.{Linear, linear_rules, Linear-ext, agree, id-Linear}
use pression.Plugin.Swizzle.Rle10A2.{swizzle_uint32, deswizzle_uint32}

both : ℕ → ℕ
unfolding deswizzle_uint32 swizzle_uint32
both x = deswizzle_uint32 (swizzle_uint32 x)

both-Linear : Linear both
unfolding both
both-Linear = search linear_rules depth 24

-- Deswizzling the components of a 10-10-10-2 pixel gives the pixel back.
pub deswizzle-swizzle : (x : ℕ) → x < 2 ^ 32 → deswizzle_uint32 (swizzle_uint32 x) ≡ x
unfolding both agree
deswizzle-swizzle x h = Linear-ext 32 both-Linear id-Linear refl x h
