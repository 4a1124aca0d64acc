-- ===== src/Data/Compressor.antt =====
-- `pression::data::Compressor`, pression/data/Compressor.h and Compressor.cpp: data is divided into
-- chunks, each of which the virtual methods compress and decompress. `none` and `fault` are an
-- access outside of the data or of the memory of a result. The bytes behind `data` are a list; the size is passed as well.
pub mod Count
pub mod Parts
pub mod RoundTrip
pub mod Accept
use pression.Base.{
  ℕ, zero, suc, ◌+◌, ◌-◌, ◌*◌, ◌/◌, ◌%◌, ◌^◌, min, Bool, true, false, not, ◌&&◌, ◌==◌, ltb, leb,
  if◌then◌else◌, List, [], ◌∷◌, ◌++◌, length, take, drop, replicate, Option, none, some, u32, u64,
}
use pression.Base.Buffer.{slice, blit}
use pression.Rle.{◌>>=◌}

-- The virtual methods: `getChunkSize`, `getCompressBound`, `compressChunk` from the bytes, their
-- number and what the result held, and `decompressChunk` from the input, its size and the
-- number of bytes to write, to the bytes that it writes.
pub record Codec : Type 0 where
  pub get_chunk_size : ℕ
  pub get_compress_bound : ℕ → ℕ
  pub compress_chunk : List ℕ → ℕ → List ℕ → List ℕ
  pub decompress_chunk : List ℕ → ℕ → ℕ → Option (List ℕ)

-- `_in`, `_out` and `compressed`.
pub record State : Type 0 where
  pub total_in : ℕ
  pub total_out : ℕ
  pub compressed : List (List ℕ)

-- What `decompress` leaves: the object and the output, or the object when it throws.
pub data Outcome : Type 0 where
  finished : State → List ℕ → Outcome
  thrown : State → Outcome
  fault : Outcome

-- `getDataSize`.
unfoldable pub get_data_size : List (List ℕ) → ℕ
get_data_size [] = 0
get_data_size (result ∷ results) = u64 (length result + get_data_size results)

-- `_in += size`, and `_out` with the sizes of the results added.
unfoldable pub add_totals : ℕ → List (List ℕ) → State → State
unfolding get_data_size
add_totals size results st = record st {
  total_in = u64 (st.total_in + size);
  total_out = u64 (st.total_out + get_data_size results);
}

-- `std::vector::resize`.
unfoldable pub resize : ℕ → List (List ℕ) → List (List ℕ)
resize n results = take n results ++ replicate (n - length results) []

-- The rounds of `for( int i = 0; i < int( n ); ++i )`.
unfoldable pub count_rounds : ℕ → ℕ
count_rounds n = if ltb (u32 n) (2 ^ 31) then u32 n else 0

-- `start`, and `nBytes`, of the chunk `i`.
unfoldable pub part_start : ℕ → ℕ → ℕ
part_start chunk i = u64 (i * chunk)

unfoldable pub part_size : ℕ → ℕ → ℕ → ℕ
unfolding part_start
part_size chunk size i = u64 (min (u64 ((i + 1) * chunk)) size + 2 ^ 64 - part_start chunk i)

module _ (codec : Codec) where
  open codec use {get_chunk_size}

  -- `nChunks`.
  unfoldable pub count_parts : ℕ → ℕ
  count_parts size = u64 (size + get_chunk_size + 2 ^ 64 - 1) / get_chunk_size

  -- `compressed[i].reserve` and `compressChunk`, for a result that holds `old`, over the size of the memory of a result
  -- from what was reserved and what it held; `none` is a store behind that memory.
  module _ (capacity : ℕ → List ℕ → ℕ) where
    unfoldable pub store_chunk : List ℕ → ℕ → List ℕ → Option (List ℕ)
    store_chunk part size old =
        let result = codec.compress_chunk part size old in
        if leb (length result) (capacity (codec.get_compress_bound size) old)
        then some result
        else none

    -- The loop of `compress` from the chunk `i` on, over the results that stand in `compressed`.
    unfoldable pub compress_parts : List ℕ → ℕ → ℕ → List (List ℕ) → Option (List (List ℕ))
    unfolding part_size store_chunk
    compress_parts bytes size i [] = some []
    compress_parts bytes size i (old ∷ olds) = do
      part ← slice (part_start get_chunk_size i) (part_size get_chunk_size size i) bytes
      rest ← compress_parts bytes size (i + 1) olds
      result ← store_chunk part (part_size get_chunk_size size i) old
      some (result ∷ rest)

    -- The same data into each of the results, which is one.
    unfoldable pub compress_whole : List ℕ → ℕ → List (List ℕ) → Option (List (List ℕ))
    unfolding store_chunk
    compress_whole part size [] = some []
    compress_whole part size (old ∷ olds) = do
      rest ← compress_whole part size olds
      result ← store_chunk part size old
      some (result ∷ rest)

    -- What `compress` puts into `compressed`, with and without `PRESSION_USE_OPENMP`.
    unfoldable pub compress_results : Bool → List ℕ → ℕ → List (List ℕ) → Option (List (List ℕ))
    unfolding compress_parts compress_whole resize count_parts count_rounds
    compress_results true bytes size old = do
      let results = resize (count_parts size) old
      let rounds = count_rounds (count_parts size)
      parts ← compress_parts bytes size 0 (take rounds results)
      some (parts ++ drop rounds results)
    compress_results false bytes size old = do
      part ← slice 0 size bytes
      compress_whole part size (resize 1 old)

    -- `compress`.
    unfoldable pub compress : Bool → List ℕ → ℕ → State → Option State
    unfolding compress_results add_totals
    compress openmp bytes size st = do
      results ← compress_results openmp bytes size st.compressed
      some (record (add_totals size results st) { compressed = results })

  -- The loop of `decompress` from the chunk `i` on.
  unfoldable pub decompress_parts : ℕ → ℕ → List (List ℕ) → List ℕ → Option (List ℕ)
  unfolding part_size
  decompress_parts size i [] out = some out
  decompress_parts size i (input ∷ inputs) out = do
    part ← codec.decompress_chunk input (length input) (part_size get_chunk_size size i)
    out' ← blit (part_start get_chunk_size i) part out
    decompress_parts size (i + 1) inputs out'

  -- The end of `decompress`, when the object has been updated.
  abbrev pub conclude : State → Option (List ℕ) → Outcome
  conclude st none = fault
  conclude st (some out) = finished st out

  -- The test behind which `decompress` throws.
  unfoldable pub is_inconsistent : ℕ → ℕ → Bool
  is_inconsistent size n =
      not (size / get_chunk_size == n) && not (u64 (size / get_chunk_size + 1) == n)

  -- `decompress` of one input, and of several.
  unfoldable pub decompress_inputs : List (List ℕ) → List ℕ → ℕ → State → Outcome
  unfolding decompress_parts is_inconsistent count_rounds
  decompress_inputs [] out size st = finished st out
  decompress_inputs (input ∷ []) out size st =
      conclude st (codec.decompress_chunk input (length input) size >>= λ part. blit 0 part out)
  decompress_inputs (input ∷ next ∷ inputs) out size st =
      let all = input ∷ next ∷ inputs in
      if is_inconsistent size (length all)
      then thrown st
      else conclude st (decompress_parts size 0 (take (count_rounds (length all)) all) out)

  -- `decompress`.
  unfoldable pub decompress : List (List ℕ) → List ℕ → ℕ → State → Outcome
  unfolding decompress_inputs add_totals
  decompress [] out size st = finished st out
  decompress (input ∷ inputs) out size st =
      decompress_inputs (input ∷ inputs) out size (add_totals size (input ∷ inputs) st)
