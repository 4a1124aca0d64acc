-- ===== src/Data/Wrappers.antt =====
-- The compressors of binary data that call a library: pression/data/CompressorLZF.cpp, CompressorFastLZ.cpp,
-- CompressorSnappy.cpp and CompressorZSTD.cpp with their headers. The functions of the libraries are parameters, from
-- the bytes and numbers that they are given to the bytes that they store. `initialized` is `_initialized`, and
-- `capacity` is the size of the memory of a result, from what was reserved and what it held.
pub mod Lossless
use pression.Base.{ℕ, ◌+◌, Bool, true, false, if◌then◌else◌, List, [], length, Option, some, u32}
use pression.Data.Compressor.{Codec}

-- `lzf_compress` and `lzf_decompress`, with the sizes of the input and of the output.
pub record Lzf : Type 0 where
  pub lzf_compress : List ℕ → ℕ → ℕ → List ℕ
  pub lzf_decompress : List ℕ → ℕ → ℕ → List ℕ

-- `fastlz_compress`, with the size of the input, and `fastlz_decompress`, with both sizes.
pub record FastLz : Type 0 where
  pub fastlz_compress : List ℕ → ℕ → List ℕ
  pub fastlz_decompress : List ℕ → ℕ → ℕ → List ℕ

-- `snappy::MaxCompressedLength`, `RawCompress` and `RawUncompress`, with the size of the input.
pub record Snappy : Type 0 where
  pub max_compressed_length : ℕ → ℕ
  pub raw_compress : List ℕ → ℕ → List ℕ
  pub raw_uncompress : List ℕ → ℕ → List ℕ

-- `ZSTD_compressBound`; `ZSTD_compress`, with the capacity of the output, the size of the input and the level; and
-- `ZSTD_decompress`, with the sizes of the output and of the input.
pub record Zstd : Type 0 where
  pub zstd_compress_bound : ℕ → ℕ
  pub zstd_compress : ℕ → List ℕ → ℕ → ℕ → List ℕ
  pub zstd_decompress : ℕ → List ℕ → ℕ → List ℕ

-- `getCompressBound` of LZF and FastLZ, over `size_t( float( size ) * 1.1f )`.
unfoldable pub lzf_bound : (ℕ → ℕ) → ℕ → ℕ
lzf_bound scaled size = scaled size + 8

unfoldable pub fastlz_bound : (ℕ → ℕ) → ℕ → ℕ
fastlz_bound scaled size = scaled size + 66

module _ (initialized : Bool) (chunk_size : ℕ) (capacity : ℕ → List ℕ → ℕ) where
  -- `CompressorLZF`.
  unfoldable pub lzf_codec : Lzf → (ℕ → ℕ) → Codec
  unfolding lzf_bound
  lzf_codec lib scaled = record {
    get_chunk_size = chunk_size;
    get_compress_bound = lzf_bound scaled;
    compress_chunk = λ bytes size old.
        if initialized
        then lib.lzf_compress bytes (u32 size) (u32 (capacity (lzf_bound scaled size) old))
        else old;
    decompress_chunk = λ input input_size size.
        if initialized
        then some (lib.lzf_decompress input (u32 input_size) (u32 size))
        else some [];
  }

  -- `CompressorZSTD< level >`.
  unfoldable pub zstd_codec : Zstd → ℕ → Codec
  zstd_codec lib level = record {
    get_chunk_size = chunk_size;
    get_compress_bound = lib.zstd_compress_bound;
    compress_chunk = λ bytes size old.
        if initialized
        then lib.zstd_compress (capacity (lib.zstd_compress_bound size) old) bytes size level
        else old;
    decompress_chunk = λ input input_size size.
        if initialized then some (lib.zstd_decompress size input input_size) else some [];
  }

module _ (initialized : Bool) (chunk_size : ℕ) where
  -- `CompressorFastLZ`; an `int` is passed in 32 bits.
  unfoldable pub fastlz_codec : FastLz → (ℕ → ℕ) → Codec
  unfolding fastlz_bound
  fastlz_codec lib scaled = record {
    get_chunk_size = chunk_size;
    get_compress_bound = fastlz_bound scaled;
    compress_chunk =
        λ bytes size old. if initialized then lib.fastlz_compress bytes (u32 size) else old;
    decompress_chunk = λ input input_size size.
        if initialized
        then some (lib.fastlz_decompress input (u32 input_size) (u32 size))
        else some [];
  }

  -- `CompressorSnappy`.
  unfoldable pub snappy_codec : Snappy → Codec
  snappy_codec lib = record {
    get_chunk_size = chunk_size;
    get_compress_bound = lib.max_compressed_length;
    compress_chunk = λ bytes size old. if initialized then lib.raw_compress bytes size else old;
    decompress_chunk = λ input input_size size.
        if initialized then some (lib.raw_uncompress input input_size) else some [];
  }
