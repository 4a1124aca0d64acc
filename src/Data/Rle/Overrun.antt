-- ===== src/Data/Rle/Overrun.antt =====
-- How much the run-length coding of bytes stores, against what `getCompressBound` promises.
use native.Mathlib.Nat.{mul-le-mul_right}
use pression.Base.{
  ap₂, ◌≢◌, ℕ, zero, suc, ◌+◌, ◌*◌, ◌/◌, ◌≤◌, ◌≡◌, refl, arith, true, List, [], ◌∷◌, length,
}
use pression.Base.Bits.{bit_and_mask}
use pression.Rle.{compress_channel}
use pression.Rle.Bound.{
  length-compress_channel, length-compress_channel-alternating, length-alternating, alternating,
}
use pression.Data.Word.{le_word, words_at, length-words_at, length-bytes_of}
use pression.Data.Rle.{rle_marker, limit, compress_words, compress_bound, compress_chunk}

-- Bytes are words of one byte.
words_at_one : (bytes : List ℕ) → words_at 1 (length bytes) bytes ≡ bytes
unfolding words_at le_word
words_at_one [] = refl
words_at_one (b ∷ bytes) = ap₂ ◌∷◌ (omega arith) (words_at_one bytes)

-- An odd number of bytes is coded byte by byte; those that alternate between the marker and
-- another byte, from the marker to the marker, are stored in one byte more than
-- `getCompressBound` promises, which is what the caller reserves.
pub length-compress_chunk-alternating :
    (other n : ℕ)
    → other ≢ rle_marker
    → let bytes = rle_marker ∷ alternating rle_marker other n in
      length (compress_chunk true bytes (length bytes) []) ≡ compress_bound (length bytes) + 1
unfolding compress_chunk compress_words compress_bound
length-compress_chunk-alternating other n h =
    let bytes = rle_marker ∷ alternating rle_marker other n in
    let coded = compress_channel rle_marker (limit 1) bytes in
    ground (
      arith,
      length-alternating rle_marker other n,
      bit_and_mask 3 (length bytes),
      bit_and_mask 2 (length bytes),
      bit_and_mask 1 (length bytes),
      words_at_one bytes,
      length-bytes_of 1 coded,
      length-compress_channel-alternating rle_marker (limit 1) other n (omega arith) h,
    )

width_bound :
    (width n : ℕ) (bytes : List ℕ)
    → 2 ≤ limit width
    → length bytes ≡ n * width
    → length (compress_words width bytes n) ≤ 2 * length bytes + width
unfolding compress_words
width_bound width zero bytes two e = omega arith
width_bound width (suc n) bytes two e =
    let words = words_at width (suc n) bytes in
    let coded = compress_channel rle_marker (limit width) words in
    ground (
      arith,
      length-bytes_of width coded,
      scaled (length coded) (suc n) width (
          omega (
            arith,
            length-compress_channel rle_marker (limit width) words two,
            length-words_at width (suc n) bytes,
          )),
    )
  where
    scaled : (k m w : ℕ) → k ≤ 2 * m + 1 → k * w ≤ 2 * (m * w) + w
    scaled k m w h = omega (arith, mul-le-mul_right w h)

-- No chunk is stored in more than eight bytes over `getCompressBound`.
pub length-compress_chunk :
    (bytes : List ℕ)
    → length (compress_chunk true bytes (length bytes) []) ≤ compress_bound (length bytes) + 8
unfolding compress_chunk compress_bound
length-compress_chunk bytes = ground (
  arith,
  bit_and_mask 3 (length bytes),
  bit_and_mask 2 (length bytes),
  bit_and_mask 1 (length bytes),
  width_bound 8 (length bytes / 8) bytes,
  width_bound 4 (length bytes / 4) bytes,
  width_bound 2 (length bytes / 2) bytes,
  width_bound 1 (length bytes) bytes,
)
