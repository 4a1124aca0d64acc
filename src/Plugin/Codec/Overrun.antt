-- ===== src/Plugin/Codec/Overrun.antt =====
-- What `_setupResults` reserves when an image has several chunks.
use pression.Base.{
  some, ℕ, zero, suc, ◌+◌, ◌*◌, ◌^◌, ◌≤◌, ◌<◌, ◌≡◌, ◌≢◌, refl, ◌∙◌, arith, ◌∷◌, map, length,
}
use pression.Rle.Bound.{alternating, length-alternating, length-compress_channel-alternating}
use pression.Plugin.Types.{Swizzle4, use_alpha}
use pression.Plugin.Chunk.{compress_chunk}
use pression.Plugin.Chunk.Split.{compress_chunk-apart}
use pression.Plugin.Float.{Float32}
use pression.Plugin.Float.Binary.{binary32, quotient, quotient-exact, product-exact, product-half}
use pression.Plugin.Codec.Borders.{first_of, first_of_chunk-first_of}
use pression.Plugin.Codec.{count_chunks, first_of_chunk, start_index, chunk_size, max_chunk_size}

-- Pixels with a component that alternates between the marker and another value.
alternating_component :
    (s : Swizzle4) (marker other p q n : ℕ)
    → (s.split p).one ≡ marker
    → (s.split q).one ≡ other
    → map (λ x. (s.split x).one) (alternating p q n) ≡ alternating marker other n
alternating_component s marker other p q zero h k = refl
alternating_component s marker other p q (suc n) h k =
    rw (h, k, alternating_component s marker other p q n h k) refl

-- In an OpenMP build on two processors an image of 4 k + 1 pixels of four bytes, with 512 ≤ k < 2 ^ 24, has two
-- chunks, of four results each; the arithmetic divides it at the pixel 2 k. If the second chunk has a
-- first component that alternates between the marker and another value, from marker to marker, that
-- component is stored in one byte more than is reserved. The largest component is above 0.
pub length-compress_chunk-overrun :
    (fl : Float32) (s : Swizzle4) (marker limit other p q k : ℕ)
    → 512 ≤ k
    → k < 2 ^ 24
    → first_of_chunk fl (4 * k + 1) 8 1 ≡ 2 * k
    → first_of_chunk fl (4 * k + 1) 8 2 ≡ 4 * k + 1
    → 0 < limit
    → other ≢ marker
    → (s.split p).one ≡ marker
    → (s.split q).one ≡ other
    → let part = p ∷ alternating p q k in
      (count_chunks (some 2) 4 ((4 * k + 1) * 4) ≡ 8)
      × (chunk_size fl (4 * k + 1) 8 1 ≡ length part)
      × (length (compress_chunk marker limit (use_alpha s) part).one
          ≡ max_chunk_size ((4 * k + 1) * 4) 8 + 1)
unfolding max_chunk_size count_chunks chunk_size start_index
length-compress_chunk-overrun fl s marker limit other p q k large small first second pos ne h e =
    let coded = length-compress_channel-alternating marker limit other k pos ne in
    (
      ground arith,
      omega (arith, first, second, length-alternating p q k),
      rw
          (
            compress_chunk-apart marker limit (use_alpha s) (p ∷ alternating p q k),
            h,
            alternating_component s marker other p q k h e,
          )
          (omega (arith, coded, length-alternating marker other k)),
    )

module _ (k : ℕ) (small : 4 * k + 1 < 2 ^ 24) where
  -- Half of an odd number of pixels is cut off, and both halves are the image.
  halves : (first_of (4 * k + 1) 2 1 ≡ 2 * k) × (first_of (4 * k + 1) 2 2 ≡ 4 * k + 1)
  halves =
      let exact : quotient (4 * k + 1) 2 ≡ (4 * k + 1) * 2 ^ 148 =
        quotient-exact (4 * k + 1) 2 148 small (omega arith) (omega arith) refl in
      let (le, ge) =
        product-half 1 (quotient (4 * k + 1) 2) (2 * k) (omega arith) (omega (arith, small)) in
      (
        omega (arith, le (omega (arith, exact)), ge (omega (arith, exact))),
        product-exact 2 (quotient (4 * k + 1) 2) (4 * k + 1) (omega arith) small
            (omega (arith, exact)),
      )

-- The same with the arithmetic of IEEE 754, for images of less than 2 ^ 24 pixels: in an OpenMP build on two
-- processors, if the second of the two chunks of an image of 4 k + 1 pixels of four bytes, from 2049 on, has a first
-- component that alternates between the marker and another value, from marker to marker, that component is stored in
-- one byte more than is reserved. The largest component is above 0.
pub binary_overrun :
    (s : Swizzle4) (marker limit other p q k : ℕ)
    → 512 ≤ k
    → 4 * k + 1 < 2 ^ 24
    → 0 < limit
    → other ≢ marker
    → (s.split p).one ≡ marker
    → (s.split q).one ≡ other
    → let part = p ∷ alternating p q k in
      (count_chunks (some 2) 4 ((4 * k + 1) * 4) ≡ 8)
      × (chunk_size binary32 (4 * k + 1) 8 1 ≡ length part)
      × (length (compress_chunk marker limit (use_alpha s) part).one
          ≡ max_chunk_size ((4 * k + 1) * 4) 8 + 1)
binary_overrun s marker limit other p q k large small pos ne h e =
    let (half, all) = halves k small in
    length-compress_chunk-overrun binary32 s marker limit other p q k large (omega (arith, small))
      (first_of_chunk-first_of (4 * k + 1) 2 1 small ∙ half)
      (first_of_chunk-first_of (4 * k + 1) 2 2 small ∙ all) pos ne h e
