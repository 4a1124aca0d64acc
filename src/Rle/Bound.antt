-- ===== src/Rle/Bound.antt =====
-- How much the compressor stores for one channel.
use pression.Base.{
  ℕ, zero, suc, ◌+◌, ◌*◌, ◌≤◌, ◌<◌, ◌≡◌, ◌≢◌, refl, arith, List, [], ◌∷◌, length, length-append,
}
use pression.Rle.{compress_channel}
use pression.Rle.Runs.{run, runs, compress_channel-runs}

module _ (marker limit : ℕ) where
  -- A run of the marker takes three components; any other run takes no more than its tokens.
  length-run-marker : (n : ℕ) → length (run marker marker n) ≡ 3
  unfolding run
  length-run-marker n = ground arith

  length-run_plain : (t n : ℕ) → t ≢ marker → length (run marker t n) ≤ n
  unfolding run
  length-run_plain t zero h = ground arith
  length-run_plain t (suc zero) h = ground arith
  length-run_plain t (suc (suc zero)) h = ground arith
  length-run_plain t (suc (suc (suc n))) h = ground arith

  length-runs :
      (xs : List ℕ) (last same : ℕ)
      → 2 ≤ limit
      → 0 < same
      → same ≤ limit
      → (length (runs marker limit last same xs) ≤ 2 * (same + length xs) + 1)
        × (last ≢ marker → length (runs marker limit last same xs) ≤ 2 * (same + length xs))
  unfolding runs
  length-runs [] last same two pos h =
      ground (arith, length-run-marker same, length-run_plain last same)
  length-runs (x ∷ xs) last same two pos h = ground (
    arith,
    length-runs xs last (same + 1),
    length-runs xs x 1,
    length-append (run marker last same) (runs marker limit x 1 xs),
    length-run-marker same,
    length-run_plain last same,
  )

-- A compressed channel has at most one component more than twice what was compressed, if the largest
-- component is at least 2.
pub length-compress_channel :
    (marker limit : ℕ) (xs : List ℕ)
    → 2 ≤ limit
    → length (compress_channel marker limit xs) ≤ 2 * length xs + 1
unfolding compress_channel
length-compress_channel marker limit [] h = omega arith
length-compress_channel marker limit (x ∷ xs) h =
    rw (compress_channel-runs marker limit x xs (omega arith))
      (omega (arith, length-runs marker limit xs x 1 h (omega arith) (omega arith)))

-- `n` times another component and the marker.
abbrev pub alternating : ℕ → ℕ → ℕ → List ℕ
alternating marker other zero = []
alternating marker other (suc n) = other ∷ marker ∷ alternating marker other n

pub length-alternating : (marker other n : ℕ) → length (alternating marker other n) ≡ 2 * n
length-alternating marker other zero = refl
length-alternating marker other (suc n) = omega (arith, length-alternating marker other n)

length-runs-alternating :
    (marker limit other n : ℕ)
    → other ≢ marker
    → length (runs marker limit marker 1 (alternating marker other n)) ≡ 4 * n + 3
unfolding runs run
length-runs-alternating marker limit other zero h = ground arith
length-runs-alternating marker limit other (suc n) h =
    ground (arith, length-runs-alternating marker limit other n)

-- The bound is reached, if the largest component is above 0: on the marker, alternating with another component, the compressor stores
-- one component more than twice what it was given.
pub length-compress_channel-alternating :
    (marker limit other n : ℕ)
    → 0 < limit
    → other ≢ marker
    → length (compress_channel marker limit (marker ∷ alternating marker other n))
      ≡ 2 * length (marker ∷ alternating marker other n) + 1
length-compress_channel-alternating marker limit other n pos h =
    rw (compress_channel-runs marker limit marker (alternating marker other n) pos) (
      omega
        (arith, length-runs-alternating marker limit other n h, length-alternating marker other n))
