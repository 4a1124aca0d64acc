-- ===== src/Plugin/Codec.antt =====
-- The outer `_compress` and `_decompress` of pression/compressor/compressorRLE.ipp: an image is
-- divided into chunks, of four results each.
pub mod RoundTrip
pub mod Overrun
pub mod Reserve
pub mod Stored
pub mod Serial
pub mod Borders
pub mod Overread
pub mod Order
use pression.Base.{
  ℕ, zero, suc, ◌+◌, ◌-◌, ◌*◌, ◌/◌, ◌%◌, ◌^◌, Bool, true, ◌&&◌, ltb, leb, if◌then◌else◌, List, [],
  ◌∷◌, ◌++◌, length, drop, replicate, Option, none, some, u32, u64,
}
use pression.Base.Buffer.{slice, blit}
use pression.Rle.{◌>>=◌}
use pression.Plugin.Types.{Format}
use pression.Plugin.Float.{Float32}
use pression.Plugin.Chunk.{Streams, compress_chunk, read_pixels, start_readers}

-- The number of chunks that `_setupResults` chooses. `openmp` is the number of processors in a
-- build with `PRESSION_USE_OPENMP`.
unfoldable pub count_chunks : Option ℕ → ℕ → ℕ → ℕ
count_chunks none n_channels in_size = n_channels
count_chunks (some procs) n_channels in_size =
    let cpu_chunks = u32 (n_channels * procs) in
    let size_chunks = u64 (in_size / 4096 * n_channels) in
    let min_chunks = u32 (if ltb size_chunks n_channels then n_channels else size_chunks) in
    if ltb min_chunks cpu_chunks then min_chunks else cpu_chunks

-- The bytes that `_setupResults` reserves for each result; twice the size fits 64 bits.
unfoldable pub max_chunk_size : ℕ → ℕ → ℕ
max_chunk_size in_size n_chunks = (in_size / n_chunks + 1) * 2

-- A build: the number of processors if it has `PRESSION_USE_OPENMP`, and the size of the memory of a result, from the
-- bytes that are reserved and what it held.
pub record Build : Type 0 where
  pub processors : Option ℕ
  pub capacity : ℕ → List ℕ → ℕ

-- A build without `PRESSION_USE_OPENMP`.
abbrev pub serial : (ℕ → List ℕ → ℕ) → Build
serial capacity = record { processors = none; capacity = capacity }

-- Results of components of `size` bytes are stored in the memory of the buffers; one more buffer is empty.
unfoldable pub are_stored : (ℕ → List ℕ → ℕ) → ℕ → ℕ → List (List ℕ) → List (List ℕ) → Bool
are_stored capacity size reserved [] buffers = true
are_stored capacity size reserved (result ∷ results) [] =
    leb (length result * size) (capacity reserved [])
    && are_stored capacity size reserved results []
are_stored capacity size reserved (result ∷ results) (old ∷ buffers) =
    leb (length result * size) (capacity reserved old)
    && are_stored capacity size reserved results buffers

-- The members `_results` and `_nResults` of a compressor.
pub record Results : Type 0 where
  pub buffers : List (List ℕ)
  pub n_results : ℕ

-- `results.push_back` until there are enough.
unfoldable pub grow : ℕ → List (List ℕ) → List (List ℕ)
grow n buffers = buffers ++ replicate (n - length buffers) []

module _ (fl : Float32) where
  open fl use {of_uint, times, divided, to_uint}

  -- `static_cast< uint64_t >( i / 4 * width )` for the chunk `c = i / 4`.
  unfoldable pub first_of_chunk : ℕ → ℕ → ℕ → ℕ
  first_of_chunk n_pixels n_chunks c =
      to_uint (times (of_uint c) (divided (of_uint (u64 (n_pixels * 4))) (of_uint n_chunks)))

  -- `startIndex` and `chunkSize` of the chunk `c`, in 64 bits.
  unfoldable pub start_index : ℕ → ℕ → ℕ → ℕ
  unfolding first_of_chunk
  start_index n_pixels n_chunks c = u64 (first_of_chunk n_pixels n_chunks c * 4)

  unfoldable pub chunk_size : ℕ → ℕ → ℕ → ℕ
  unfolding start_index
  chunk_size n_pixels n_chunks c =
      u64 (start_index n_pixels n_chunks (c + 1) + 2 ^ 64 - start_index n_pixels n_chunks c) / 4

  module _ (marker limit : ℕ) (format : Format) (n_pixels n_chunks : ℕ) where
    -- The loop over the chunks from `c` on, `k` of them: the results in order. `none` is a read
    -- outside of the image.
    unfoldable pub compress_chunks : ℕ → ℕ → List ℕ → Option (List (List ℕ))
    compress_chunks zero c image = some []
    compress_chunks (suc k) c image = do
      part ← slice (start_index n_pixels n_chunks c / 4) (chunk_size n_pixels n_chunks c) image
      rest ← compress_chunks k (c + 1) image
      let s = compress_chunk marker limit format part
      some (s.one ∷ s.two ∷ s.three ∷ s.four ∷ rest)

    -- The loop of `_decompress` over its inputs, four at a time. `none` is an access outside of
    -- an input or of the image, or inputs that are no multiple of four.
    unfoldable pub decompress_chunks : ℕ → List (List ℕ) → List ℕ → Option (List ℕ)
    decompress_chunks c [] out = some out
    decompress_chunks c (i ∷ []) out = none
    decompress_chunks c (i ∷ j ∷ []) out = none
    decompress_chunks c (i ∷ j ∷ k ∷ []) out = none
    decompress_chunks c (i ∷ j ∷ k ∷ l ∷ inputs) out = do
      (pixels, ends) ←
          read_pixels marker limit format (chunk_size n_pixels n_chunks c)
            (start_readers (record { one = i; two = j; three = k; four = l }))
      out' ← blit (start_index n_pixels n_chunks c / 4) pixels out
      decompress_chunks (c + 1) inputs out'

  module _ (marker limit pixel_size : ℕ) (format : Format) where
    -- `_compress`: the new results in front of those that an earlier call left. A pixel has four components. `none` is
    -- a read outside of the image, or a store behind the memory of a result.
    unfoldable pub compress : Build → ℕ → List ℕ → Results → Option Results
    unfolding compress_chunks grow are_stored
    compress build n_pixels image r = do
      let size = u64 (n_pixels * pixel_size)
      let n_chunks = count_chunks build.processors 4 size
      let reserved = max_chunk_size size n_chunks
      let buffers = grow n_chunks r.buffers
      new ← compress_chunks marker limit format n_pixels n_chunks (n_chunks / 4) 0 image
      let done : Results = record {
        buffers = new ++ drop (length new) buffers;
        n_results = n_chunks;
      }
      if are_stored build.capacity (pixel_size / 4) reserved new buffers then some done else none

    -- `_decompress` into `out`.
    unfoldable pub decompress : ℕ → List (List ℕ) → List ℕ → Option (List ℕ)
    unfolding decompress_chunks
    decompress n_pixels inputs out =
        decompress_chunks marker limit format n_pixels (length inputs) 0 inputs out
