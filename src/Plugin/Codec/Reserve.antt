-- ===== src/Plugin/Codec/Reserve.antt =====
-- What `_setupResults` reserves is enough for what the compressor stores.
use native.Mathlib.Nat.{mul-le-mul_right}
use pression.Base.{ℕ, ◌+◌, ◌*◌, ◌/◌, ◌≤◌, arith, List, [], ◌∷◌, map, length, length-map}
use pression.Rle.{compress_channel}
use pression.Rle.Bound.{length-compress_channel}
use pression.Plugin.Types.{Format, use_alpha, no_alpha}
use pression.Plugin.Chunk.{Streams, compress_chunk}
use pression.Plugin.Chunk.Split.{apart, compress_chunk-apart}
use pression.Plugin.Codec.{max_chunk_size}

-- Every result is at most so long.
pub record IsWithin (bound : ℕ) (s : Streams) : Type 0 where
  pub one : length s.one ≤ bound
  pub two : length s.two ≤ bound
  pub three : length s.three ≤ bound
  pub four : length s.four ≤ bound

module _ (marker limit : ℕ) (two_or_more : 2 ≤ limit) where
  length-component :
      (f : ℕ → ℕ) (ps : List ℕ)
      → length (compress_channel marker limit (map f ps)) ≤ 2 * length ps + 1
  length-component f ps =
      omega (arith, length-compress_channel marker limit (map f ps) two_or_more, length-map ps f)

  apart-IsWithin :
      (format : Format) (ps : List ℕ) → IsWithin (2 * length ps + 1) (apart marker limit format ps)
  apart-IsWithin (use_alpha s) ps = record {
    one = length-component _ ps;
    two = length-component _ ps;
    three = length-component _ ps;
    four = length-component _ ps;
  }
  apart-IsWithin (no_alpha s) [] = record {
    one = omega arith;
    two = omega arith;
    three = omega arith;
    four = omega arith;
  }
  apart-IsWithin (no_alpha s) (p ∷ ps) = record {
    one = length-component (λ x. (s.split x).one) (p ∷ ps);
    two = length-component (λ x. (s.split x).two) (p ∷ ps);
    three = length-component (λ x. (s.split x).three) (p ∷ ps);
    four = omega (arith, length-compress_channel marker limit (0 ∷ []) two_or_more);
  }

  pub compress_chunk-IsWithin :
      (format : Format) (ps : List ℕ)
      → IsWithin (2 * length ps + 1) (compress_chunk marker limit format ps)
  compress_chunk-IsWithin format ps =
      rw (compress_chunk-apart marker limit format ps) (apart-IsWithin format ps)

-- Every result, of components of `size` bytes, takes at most so many bytes.
pub record IsReserved (size bytes : ℕ) (s : Streams) : Type 0 where
  pub one : length s.one * size ≤ bytes
  pub two : length s.two * size ≤ bytes
  pub three : length s.three * size ≤ bytes
  pub four : length s.four * size ≤ bytes

-- In a serial build, where there are four results, those of a chunk that is the whole image.
pub compress_chunk-IsReserved :
    (marker limit size : ℕ) (format : Format) (image : List ℕ)
    → 2 ≤ limit
    → size ≤ 2
    → IsReserved size
        (max_chunk_size (length image * (4 * size)) 4)
        (compress_chunk marker limit format image)
unfolding max_chunk_size
compress_chunk-IsReserved marker limit size format image h k =
    let within = apart-IsWithin marker limit h format image in
    rw (compress_chunk-apart marker limit format image) (record {
      one = room _ within.one;
      two = room _ within.two;
      three = room _ within.three;
      four = room _ within.four;
    })
  where
    room : (n : ℕ) → n ≤ 2 * length image + 1 → n * size ≤ (length image * (4 * size) / 4 + 1) * 2
    room n p = omega (arith, mul-le-mul_right size p)
