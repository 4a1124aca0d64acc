-- ===== src/Plugin/Codec/Overread.antt =====
-- When the outer `_compress` reads behind the image.
use pression.Base.{
  ℕ, zero, suc, ◌+◌, ◌*◌, ◌/◌, ◌≤◌, ◌<◌, ◌≡◌, refl, ap, ◌∙◌, arith, List, length, Option, none,
  some, Option-cases, inl, inr, u64,
}
use pression.Base.Buffer.{slice}
use pression.Plugin.Types.{Format}
use pression.Plugin.Float.{Float32}
use pression.Plugin.Codec.{Build, count_chunks, Results, chunk_size, compress_chunks, compress}
use pression.Plugin.Codec.Order.Schedule.{bind-some}
use pression.Plugin.Codec.RoundTrip.{border, IsDivision, chunk_size-border}

slice-inside :
    (start n : ℕ) (xs part : List ℕ) → slice start n xs ≡ some part → start + n ≤ length xs
unfolding slice
slice-inside start n xs part h = ground (arith, h)

module _ (fl : Float32) (n_pixels n_chunks marker limit : ℕ) (format : Format)
    (image : List ℕ) where
  abbrev part_at : ℕ → Option (List ℕ)
  part_at c = slice (border fl n_pixels n_chunks c) (chunk_size fl n_pixels n_chunks c) image

  -- If all chunks are read, the last of them is inside of the image.
  last_inside :
      (k c : ℕ) (rs : List (List ℕ))
      → compress_chunks fl marker limit format n_pixels n_chunks (suc k) c image ≡ some rs
      → border fl n_pixels n_chunks (c + k) + chunk_size fl n_pixels n_chunks (c + k) ≤ length image
  unfolding compress_chunks
  last_inside zero c rs h =
      let same : c + zero ≡ c = omega arith in
      let (part, e, _) = bind-some (part_at c) _ rs h in rw same (slice-inside _ _ image part e)
  last_inside (suc k) c rs h =
      let next : c + suc k ≡ c + 1 + k = omega arith in
      let (part, _, g) = bind-some (part_at c) _ rs h in
      let (rest, e, _) =
        bind-some (compress_chunks fl marker limit format n_pixels n_chunks (suc k) (c + 1) image) _
          rs g in
      rw next (last_inside k (c + 1) rest e)

-- Where the last chunk ends behind the image, compressing reads behind it.
pub compress-overread :
    (fl : Float32) (marker limit pixel_size : ℕ) (format : Format) (build : Build) (image : List ℕ)
    (old : Results) (reach k : ℕ)
    → let n = length image in
      let n_chunks = count_chunks build.processors 4 (u64 (n * pixel_size)) in
      n_chunks / 4 ≡ suc k
      → IsDivision fl n n_chunks reach (suc k)
      → n < reach
      → compress fl marker limit pixel_size format build n image old ≡ none
unfolding compress
compress-overread fl marker limit pixel_size format build image old reach k e div behind =
    let n = length image in
    let n_chunks = count_chunks build.processors 4 (u64 (n * pixel_size)) in
    let chunks = compress_chunks fl marker limit format n n_chunks (suc k) 0 image in
    elim (Option-cases chunks) [
      | inl h ↦ rw (e, h) refl
      | inr (rs, h) ↦
          let inside = last_inside fl n n_chunks marker limit format image k 0 rs h in
          let size =
            chunk_size-border fl n n_chunks k (div.rising k (k + 1) (omega arith) (omega arith)) in
          let step : k + 1 ≡ suc k = omega arith in
          let start : 0 + k ≡ k = omega arith in
          let last = ap (border fl n n_chunks) step ∙ div.last in
          let inside' = rw start at inside in absurd (omega (arith, inside', size, last, behind))
    ]
