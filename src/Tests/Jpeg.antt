-- ===== src/Tests/Jpeg.antt =====
-- The JPEG plugin at concrete inputs, with a library that stores the colours of gray images.
use pression.Base.{ℕ, ◌≡◌, refl, arith, true, List, [], ◌∷◌, length, some}
use pression.Plugin.Dims.{Dims}
use pression.Plugin.TurboJpeg.{
  Library, Compressor, new_compressor, uses_alpha, compress_colours, compress, get_results,
  decompress,
}
use pression.Plugin.TurboJpeg.Alpha.{merge_alpha, decompress-merge_alpha}

-- A library that remembers nothing of an image and decodes gray.
abbrev gray : Library
gray = record {
  tj_compress = λ image w pitch h size sampling quality flags. some (0xff ∷ []);
  tj_decompress =
      λ jpeg out w pitch h size flags. (true, 0x80 ∷ 0x80 ∷ 0x80 ∷ 0 ∷ 0x80 ∷ 0x80 ∷ 0x80 ∷ 0 ∷ []);
  bgr_flag = 1;
  fast_upsample_flag = 0x100;
  sampling_444 = 0;
}

abbrev image : List ℕ
image = 1 ∷ 2 ∷ 3 ∷ 0xfe ∷ 4 ∷ 5 ∷ 6 ∷ 0x42 ∷ []

abbrev place : List ℕ
place = 0 ∷ 0 ∷ 0 ∷ 0 ∷ 0 ∷ 0 ∷ 0 ∷ 0 ∷ []

abbrev dims : Dims
dims = record { x = 0; w = 2; y = 0; h = 1 }

abbrev object : Compressor
unfolding new_compressor
object = new_compressor gray 0x200002

four_bytes : object.token_size ≡ 4
unfolding new_compressor
four_bytes = refl

alpha_used : uses_alpha 4 ≡ true
unfolding uses_alpha
alpha_used = refl

gray_coded : (compress_colours gray image dims object).colours ≡ 0xff ∷ []
unfolding compress_colours
gray_coded = refl

decompress-merge_alpha_example :
    (after : Compressor) × (compress gray image dims 4 object ≡ some after)
    × (length (get_results after) ≡ 2)
    × (decompress gray (get_results after) place dims 4 object
        ≡ some (
          merge_alpha 2 image (0x80 ∷ 0x80 ∷ 0x80 ∷ 0 ∷ 0x80 ∷ 0x80 ∷ 0x80 ∷ 0 ∷ []),
          record object { decoder = true },
        ))
decompress-merge_alpha_example =
    decompress-merge_alpha gray object object image place (0xff ∷ [])
      (0x80 ∷ 0x80 ∷ 0x80 ∷ 0 ∷ 0x80 ∷ 0x80 ∷ 0x80 ∷ 0 ∷ []) dims 4 four_bytes four_bytes alpha_used
      refl (omega arith) (omega arith) (omega arith) gray_coded refl
