-- ===== src/Plugin/Codec/Serial.antt =====
-- What an image is stored as in a build without OpenMP, where it is one chunk.
use native.Mathlib.Nat.{mul-le-mul_right}
use pression.Base.{
  ℕ, zero, suc, ◌+◌, ◌*◌, ◌/◌, ◌^◌, ◌≤◌, ◌<◌, ◌≡◌, refl, ap, ◌∙◌, arith, u64, List, [], ◌∷◌, map,
  length, length-append, take, Bool-cases, inl, inr, none, some,
}
use pression.Base.Buffer.{slice, slice_behind, take_all}
use pression.Rle.{compress_channel}
use pression.Rle.Runs.{run, runs, compress_channel-runs}
use pression.Plugin.Types.{Format, use_alpha, no_alpha}
use pression.Plugin.Float.{Float32, IsExact}
use pression.Plugin.Chunk.{compress_chunk}
use pression.Plugin.Chunk.Split.{compress_chunk-apart}
use pression.Plugin.Codec.{
  serial, start_index, chunk_size, count_chunks, max_chunk_size, are_stored, Results, grow,
  compress_chunks, compress,
}
use pression.Plugin.Codec.Reserve.{IsReserved, compress_chunk-IsReserved}
use pression.Plugin.Codec.RoundTrip.{serial_IsDivision, serial_chunk_size}

serial_slice :
    (fl : Float32) (image : List ℕ)
    → IsExact fl
    → length image ≤ 2 ^ 24
    → slice (start_index fl (length image) 4 0 / 4) (chunk_size fl (length image) 4 0) image
      ≡ some image
serial_slice fl image exact small =
    let n = length image in
    let div = serial_IsDivision fl n exact small in
    rw (div.first, serial_chunk_size fl n exact small)
      (slice_behind [] image 0 n refl (omega arith) ∙ ap some (take_all n image refl))

-- In a build without OpenMP, with arithmetic that is exact for the one chunk: an image of at most 2 ^ 24 pixels is
-- one chunk from its first pixel to its last, and each of the four results of that chunk fits the bytes that are
-- reserved for it, for components of at most two bytes, four to a pixel, the largest at least 2.
pub serial-IsReserved :
    (fl : Float32) (marker limit size : ℕ) (format : Format) (image : List ℕ)
    → IsExact fl
    → length image ≤ 2 ^ 24
    → 2 ≤ limit
    → size ≤ 2
    → let n = length image in
      let n_chunks = count_chunks none 4 (u64 (n * (4 * size))) in
      (slice (start_index fl n n_chunks 0 / 4) (chunk_size fl n n_chunks 0) image ≡ some image)
      × IsReserved size
          (max_chunk_size (u64 (n * (4 * size))) n_chunks)
          (compress_chunk marker limit format image)
unfolding count_chunks
serial-IsReserved fl marker limit size format image exact small two narrow =
    let n = length image in
    let bytes : 4 * size ≤ 8 = omega (arith, narrow) in
    let whole : u64 (n * (4 * size)) ≡ n * (4 * size) =
      omega (arith, small, mul-le-mul_right n bytes) in
    (
      serial_slice fl image exact small,
      rw whole (compress_chunk-IsReserved marker limit size format image two narrow),
    )

-- No result is empty.
abbrev pub NoneEmpty : List (List ℕ) → Type 0
NoneEmpty [] = Unit {0}
NoneEmpty (result ∷ results) = (0 < length result) × NoneEmpty results

module _ (marker limit : ℕ) where
  run-filled : (t n : ℕ) → 0 < n → 0 < length (run marker t n)
  unfolding run
  run-filled t zero h = absurd (omega arith)
  run-filled t (suc zero) h = ground arith
  run-filled t (suc (suc zero)) h = ground arith
  run-filled t (suc (suc (suc n))) h = ground arith

  runs-filled :
      (xs : List ℕ) (last same : ℕ) → 0 < same → 0 < length (runs marker limit last same xs)
  unfolding runs
  runs-filled [] last same pos = run-filled last same pos
  runs-filled (x ∷ xs) last same pos = ground (
    arith,
    runs-filled xs last (same + 1),
    length-append (run marker last same) (runs marker limit x 1 xs),
    run-filled last same pos,
  )

  channel-filled :
      (xs : List ℕ) → 0 < limit → 0 < length xs → 0 < length (compress_channel marker limit xs)
  channel-filled [] two h = absurd (omega arith)
  channel-filled (x ∷ xs) two h =
      rw (compress_channel-runs marker limit x xs two) (runs-filled xs x 1 (omega arith))

  -- What is made of a chunk that is not empty.
  abbrev pub results_of : Format → List ℕ → List (List ℕ)
  results_of format part =
      let s = compress_chunk marker limit format part in s.one ∷ s.two ∷ s.three ∷ s.four ∷ []

  pub results_of-NoneEmpty :
      (format : Format) (part : List ℕ)
      → 0 < limit
      → 0 < length part
      → NoneEmpty (results_of format part)
  results_of-NoneEmpty format [] pos h = absurd (omega arith)
  results_of-NoneEmpty (use_alpha s) (p ∷ ps) pos h =
      rw (compress_chunk-apart marker limit (use_alpha s) (p ∷ ps)) (
        channel-filled (map (λ p. (s.split p).one) (p ∷ ps)) pos (omega arith),
        (
          channel-filled (map (λ p. (s.split p).two) (p ∷ ps)) pos (omega arith),
          (
            channel-filled (map (λ p. (s.split p).three) (p ∷ ps)) pos (omega arith),
            (channel-filled (map (λ p. (s.split p).four) (p ∷ ps)) pos (omega arith), tt),
          ),
        ),
      )
  results_of-NoneEmpty (no_alpha s) (p ∷ ps) pos h =
      rw (compress_chunk-apart marker limit (no_alpha s) (p ∷ ps)) (
        channel-filled (map (λ p. (s.split p).one) (p ∷ ps)) pos (omega arith),
        (
          channel-filled (map (λ p. (s.split p).two) (p ∷ ps)) pos (omega arith),
          (
            channel-filled (map (λ p. (s.split p).three) (p ∷ ps)) pos (omega arith),
            (channel-filled (0 ∷ []) pos (omega arith), tt),
          ),
        ),
      )

-- The results of the image.
pub serial-results :
    (fl : Float32) (marker limit pixel_size : ℕ) (format : Format) (capacity : ℕ → List ℕ → ℕ)
    (image : List ℕ) (old new : Results)
    → IsExact fl
    → length image ≤ 2 ^ 24
    → compress fl marker limit pixel_size format (serial capacity) (length image) image old
      ≡ some new
    → take 4 new.buffers ≡ results_of marker limit format image
unfolding compress count_chunks compress_chunks
serial-results fl marker limit pixel_size format capacity image old new exact small h =
    let n = length image in
    let reserved = max_chunk_size (u64 (n * pixel_size)) 4 in
    let results = results_of marker limit format image in
    let stored = are_stored capacity (pixel_size / 4) reserved results (grow 4 old.buffers) in
    let h' = rw (serial_slice fl image exact small) at h in
    elim (Bool-cases stored) [
      | inl e ↦ ground (arith, e, h')
      | inr e ↦ absurd (ground (arith, e, h'))
    ]
