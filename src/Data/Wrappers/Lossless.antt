-- ===== src/Data/Wrappers/Lossless.antt =====
-- What the compressors that call a library give back, if the libraries do what they document.
use pression.Base.{
  ℕ, ◌+◌, ◌*◌, ◌^◌, ◌≤◌, ◌<◌, ◌≡◌, refl, ap, arith, Bool, true, ◌&&◌, ◌||◌, ltb, leb, List, ◌++◌,
  length, drop, some, u32,
}
use pression.Data.Word.{AllBelow}
use pression.Data.Compressor.{State, finished, count_parts, compress, decompress}
use pression.Data.Compressor.Parts.{IsLosslessOn}
use pression.Data.Compressor.RoundTrip.{decompress-compress_accepted}
use pression.Data.Wrappers.{Lzf, lzf_bound, lzf_codec}

-- What lzf.h documents: a result is not larger than the output may be, and if that has room for 104% of the input, the
-- result is decompressed to the input.
pub record IsDocumentedLzf (lib : Lzf) : Type 0 where
  pub bounded :
      (bytes : List ℕ) (out_size : ℕ)
      → length (lib.lzf_compress bytes (length bytes) out_size) ≤ out_size
  pub given_back :
      (bytes : List ℕ) (out_size : ℕ)
      → AllBelow 256 bytes
      → 0 < length bytes
      → length bytes * 104 ≤ out_size * 100
      → let input = lib.lzf_compress bytes (length bytes) out_size in
        lib.lzf_decompress input (length input) (length bytes) ≡ bytes

-- Up to the limit, single precision scales a size to 104% of it at least, and the memory of a result has the size that
-- was reserved, or more, which fits 32 bits.
pub record IsRoomy (limit : ℕ) (capacity : ℕ → List ℕ → ℕ) (scaled : ℕ → ℕ) : Type 0 where
  pub small : limit < 2 ^ 32
  pub scaled_up : (n : ℕ) → n ≤ limit → n * 104 ≤ (scaled n + 8) * 100
  pub reserved :
      (n : ℕ) (old : List ℕ) → n ≤ limit → lzf_bound scaled n ≤ capacity (lzf_bound scaled n) old
  pub narrow : (n : ℕ) (old : List ℕ) → n ≤ limit → capacity (lzf_bound scaled n) old < 2 ^ 32

module _ (limit chunk_size : ℕ) (capacity : ℕ → List ℕ → ℕ) (lib : Lzf) (scaled : ℕ → ℕ) where
  -- The sizes of data that are compressed.
  abbrev pub accepts : ℕ → Bool
  accepts n = ltb 0 n && leb n limit

  bound_lem : (n : ℕ) → lzf_bound scaled n ≡ scaled n + 8
  unfolding lzf_bound
  bound_lem n = refl

  given_back :
      (bytes old : List ℕ)
      → IsDocumentedLzf lib
      → IsRoomy limit capacity scaled
      → AllBelow 256 bytes
      → accepts (length bytes) ≡ true
      → let codec = lzf_codec true chunk_size capacity lib scaled in
        let input = codec.compress_chunk bytes (length bytes) old in
        codec.decompress_chunk input (length input) (length bytes) ≡ some bytes
  unfolding lzf_codec
  given_back bytes old documented roomy a ok =
      let n = length bytes in
      let room = capacity (lzf_bound scaled n) old in
      let pos : 0 < n = ground (arith, ok) in
      let le : n ≤ limit = ground (arith, ok) in
      let whole : u32 n ≡ n = omega (arith, le, roomy.small) in
      let whole_room : u32 room ≡ room = omega (arith, roomy.narrow n old le) in
      let input = lib.lzf_compress bytes n room in
      let whole_input : u32 (length input) ≡ length input =
        omega (arith, documented.bounded bytes room, roomy.narrow n old le) in
      let enough : n * 104 ≤ room * 100 =
        omega (arith, roomy.scaled_up n le, roomy.reserved n old le, bound_lem n) in
      rw (whole, whole_room, whole_input) (ap some (documented.given_back bytes room a pos enough))

  stored :
      (bytes old : List ℕ)
      → IsDocumentedLzf lib
      → IsRoomy limit capacity scaled
      → accepts (length bytes) ≡ true
      → let codec = lzf_codec true chunk_size capacity lib scaled in
        length (codec.compress_chunk bytes (length bytes) old)
        ≤ capacity (codec.get_compress_bound (length bytes)) old
  unfolding lzf_codec
  stored bytes old documented roomy ok =
      let n = length bytes in
      let room = capacity (lzf_bound scaled n) old in
      let le : n ≤ limit = ground (arith, ok) in
      let whole : u32 n ≡ n = omega (arith, le, roomy.small) in
      let whole_room : u32 room ≡ room = omega (arith, roomy.narrow n old le) in
      rw (whole, whole_room) (documented.bounded bytes room)

  pub lzf_codec-IsLosslessOn :
      IsDocumentedLzf lib
      → IsRoomy limit capacity scaled
      → 0 < chunk_size
      → chunk_size ≤ limit
      → IsLosslessOn accepts capacity (lzf_codec true chunk_size capacity lib scaled)
  lzf_codec-IsLosslessOn documented roomy pos le = record {
    given_back = λ bytes old. given_back bytes old documented roomy;
    chunk_pos = unfold lzf_codec in pos;
    stored = λ bytes old a ok. stored bytes old documented roomy ok;
    chunks_accepted = unfold lzf_codec in λ k above below. ground arith;
  }

-- With LZF, once registered, if the library does what it documents and the memory of the results suffices for sizes up
-- to a limit below 2 ^ 32, which is not exceeded by a chunk, nor without OpenMP by the data, which then is not empty:
-- compressing bytes succeeds, whatever the compressor did before, and decompressing the results writes the bytes back
-- and changes nothing behind them. The size with a chunk more fits 64 bits, and the number of chunks an `int`.
pub decompress-compress_lzf :
    (limit chunk_size : ℕ) (capacity : ℕ → List ℕ → ℕ) (lib : Lzf) (scaled : ℕ → ℕ) (openmp : Bool)
    (bytes out : List ℕ) (st other : State)
    → IsDocumentedLzf lib
    → IsRoomy limit capacity scaled
    → 0 < chunk_size
    → chunk_size ≤ limit
    → AllBelow 256 bytes
    → (openmp || (ltb 0 (length bytes) && leb (length bytes) limit)) ≡ true
    → length bytes + chunk_size < 2 ^ 64
    → let codec = lzf_codec true chunk_size capacity lib scaled in
      count_parts codec (length bytes) < 2 ^ 31
      → length bytes ≤ length out
      → (new : State) × (compress codec capacity openmp bytes (length bytes) st ≡ some new)
        × (new' : State) × (decompress codec new.compressed out (length bytes) other
            ≡ finished new' (bytes ++ drop (length bytes) out))
decompress-compress_lzf limit chunk_size capacity lib scaled openmp bytes out st other documented
      roomy pos le a ok small few fits =
    decompress-compress_accepted (accepts limit chunk_size capacity lib scaled) capacity
      (lzf_codec true chunk_size capacity lib scaled) openmp bytes out st other
      (lzf_codec-IsLosslessOn limit chunk_size capacity lib scaled documented roomy pos le) a ok
      (unfold lzf_codec in small) few fits
