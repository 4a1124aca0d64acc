-- ===== src/Data/Rle.antt =====
-- pression/data/CompressorRLE.cpp and CompressorRLE.h: the run-length coding of bytes, read as
-- words of the widest size that divides their number. `none` is a read behind the end of the
-- input. A result is the bytes that were set as its content; reserving and packing it do not
-- change them.
pub mod RoundTrip
pub mod Overrun
use pression.Base.{
  ℕ, ◌-◌, ◌*◌, ◌/◌, ◌^◌, Bool, true, false, ◌==◌, if◌then◌else◌, List, [], length, Option, none,
  some, ◌>>>◌, ◌&&&◌, ◌<<<◌,
}
use pression.Rle.{◌>>=◌, start_reader, compress_channel, read_channel}
use pression.Data.Word.{words_at, bytes_of}
use pression.Data.Compressor.{Codec}

-- `_rleMarker`.
abbrev pub rle_marker : ℕ
rle_marker = 0x42

-- `std::numeric_limits< T >::max()` for a word of `width` bytes.
abbrev pub limit : ℕ → ℕ
limit width = 256 ^ width - 1

-- `_compress< T >`, for `T` of `width` bytes and `size` words of the input.
unfoldable pub compress_words : ℕ → List ℕ → ℕ → List ℕ
unfolding compress_channel words_at bytes_of
compress_words width input size =
    if size == 0
    then []
    else bytes_of width (compress_channel rle_marker (limit width) (words_at width size input))

-- `_decompress< T >`: the bytes that are stored at `output`.
unfoldable pub decompress_words : ℕ → List ℕ → ℕ → Option (List ℕ)
unfolding read_channel words_at bytes_of
decompress_words width input n_elems = do
  (tokens, end) ←
      read_channel rle_marker (limit width) n_elems
        (start_reader (words_at width (length input / width) input))
  some (bytes_of width tokens)

-- `getCompressBound`, for sizes below 2 ^ 63.
unfoldable pub compress_bound : ℕ → ℕ
compress_bound size = size <<< 1

-- `CompressorRLE::compressChunk` into a result that holds `old`. `initialized` is `_initialized`.
unfoldable pub compress_chunk : Bool → List ℕ → ℕ → List ℕ → List ℕ
unfolding compress_words
compress_chunk false bytes size old = old
compress_chunk true bytes size old =
    if size &&& 0x7 == 0
    then compress_words 8 bytes (size >>> 3)
    else if size &&& 0x3 == 0
    then compress_words 4 bytes (size >>> 2)
    else if size &&& 0x1 == 0
    then compress_words 2 bytes (size >>> 1)
    else compress_words 1 bytes size

-- `CompressorRLE::decompressChunk`: the bytes that are stored at `data`.
unfoldable pub decompress_chunk : Bool → List ℕ → ℕ → Option (List ℕ)
unfolding decompress_words
decompress_chunk false input size = some []
decompress_chunk true input size =
    if size &&& 0x7 == 0
    then decompress_words 8 input (size >>> 3)
    else if size &&& 0x3 == 0
    then decompress_words 4 input (size >>> 2)
    else if size &&& 0x1 == 0
    then decompress_words 2 input (size >>> 1)
    else decompress_words 1 input size

-- `CompressorRLE` as a `Compressor`, with the chunk size of the base class.
unfoldable pub rle_codec : Bool → ℕ → Codec
unfolding compress_chunk decompress_chunk compress_bound
rle_codec initialized chunk_size = record {
  get_chunk_size = chunk_size;
  get_compress_bound = compress_bound;
  compress_chunk = compress_chunk initialized;
  decompress_chunk = λ input input_size size. decompress_chunk initialized input size;
}
