-- ===== src/Tests/Plugin.antt =====
-- The image compressors at concrete inputs.
use pression.Base.{ℕ, ◌*◌, ◌/◌, ◌≡◌, u64, none, some, refl, arith, true, List, [], ◌∷◌}
use pression.Plugin.Chunk.{compress_chunk}
use pression.Plugin.Chunk.Split.{apart, compress_chunk-apart}
use pression.Plugin.Codec.{count_chunks, start_index, chunk_size, max_chunk_size, Results}
use pression.Plugin.Codec.Reserve.{IsReserved}
use pression.Base.Buffer.{slice}
use pression.Plugin.Float.Binary.{binary32, binary32-IsExact}
use pression.Plugin.Codec.Serial.{serial-IsReserved}
use pression.Plugin.Dims.{Dims, count_pixels}
use pression.Plugin.Class.RoundTrip.{ArePixels}
use pression.Plugin.Engine.Rle4B.{diff_rle4b_format}

abbrev image : List ℕ
image = 0x11223344 ∷ 0x11223344 ∷ 0x42424242 ∷ []

abbrev place : List ℕ
place = 0 ∷ 0 ∷ 0 ∷ 7 ∷ []

abbrev dims : Dims
dims = record { x = 0; w = 3; y = 0; h = 1 }

abbrev fresh : Results
fresh = record { buffers = []; n_results = 0 }

three_pixels : count_pixels dims 4 ≡ 3
unfolding count_pixels
three_pixels = refl

image_pixels : ArePixels 4 image
image_pixels = (omega arith, (omega arith, (omega arith, tt)))

compress_chunk-apart_example :
    compress_chunk 66 255 (diff_rle4b_format true) image
    ≡ apart 66 255 (diff_rle4b_format true) image
compress_chunk-apart_example = compress_chunk-apart 66 255 (diff_rle4b_format true) image

serial-IsReserved_example :
    let n_chunks = count_chunks none 4 (u64 (3 * (4 * 1))) in
    (slice (start_index binary32 3 n_chunks 0 / 4) (chunk_size binary32 3 n_chunks 0) image
      ≡ some image)
    × IsReserved 1
        (max_chunk_size (u64 (3 * (4 * 1))) n_chunks)
        (compress_chunk 66 255 (diff_rle4b_format true) image)
serial-IsReserved_example =
    serial-IsReserved binary32 66 255 1 (diff_rle4b_format true) image binary32-IsExact
      (omega arith) (omega arith) (omega arith)
