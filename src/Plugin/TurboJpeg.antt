-- ===== src/Plugin/TurboJpeg.antt =====
-- The JPEG plugin: pression/compressor/compressorTurboJPEG.cpp and compressorTurboJPEG.h. The JPEG library is a
-- parameter. Images are bytes; the arguments that the library takes as `int` are passed in 32 bits. `none` is an
-- access outside of the data.
pub mod Names
pub mod Engines
pub mod Alpha
use pression.Base.{
  ℕ, zero, suc, ◌+◌, ◌*◌, Bool, true, false, not, ◌&&◌, ◌||◌, ◌==◌, if◌then◌else◌, List, [], ◌∷◌,
  ◌++◌, Option, none, some, u32, u64, ◌&&&◌, ◌|||◌, ◌<<<◌,
}
use pression.Rle.{◌>>=◌}
use pression.Plugin.Dims.{Dims, has_flag, ignore_alpha_flag}
use pression.Data.Word.{le_word, le_bytes}
use Names

-- `tjCompress`: from the image, its width, pitch and height, the size of a pixel, the sampling, the quality and the
-- flags, to the JPEG data, or `none` if it fails; and `tjDecompress`: from the data, what the output holds, its width,
-- pitch and height, the size of a pixel and the flags, to whether it succeeds and what the output holds then. The
-- constants that are passed.
pub record Library : Type 0 where
  pub tj_compress : List ℕ → ℕ → ℕ → ℕ → ℕ → ℕ → ℕ → ℕ → Option (List ℕ)
  pub tj_decompress : List ℕ → List ℕ → ℕ → ℕ → ℕ → ℕ → ℕ → Bool × List ℕ
  pub bgr_flag : ℕ
  pub fast_upsample_flag : ℕ
  pub sampling_444 : ℕ

-- The members of the class; of the handles, whether they were made.
pub record Compressor : Type 0 where
  pub quality : ℕ
  pub token_size : ℕ
  pub flags : ℕ
  pub encoder : Bool
  pub decoder : Bool
  pub colours : List ℕ
  pub alphas : List ℕ
  pub n_results : ℕ

-- What the switch of the constructor sets: the quality, the size of a pixel, and whether the channels are reversed.
-- In the default case the code only asserts.
pub record Settings : Type 0 where
  pub quality : ℕ
  pub token_size : ℕ
  pub reversed : Bool

unfoldable pub settings_of : ℕ → Settings
settings_of name =
    if name == Names.bgra80
    then record { quality = 80; token_size = 4; reversed = true }
    else if name == Names.rgba80
    then record { quality = 80; token_size = 4; reversed = false }
    else if name == Names.bgra90
    then record { quality = 90; token_size = 4; reversed = true }
    else if name == Names.rgba90
    then record { quality = 90; token_size = 4; reversed = false }
    else if name == Names.bgra100
    then record { quality = 100; token_size = 4; reversed = true }
    else if name == Names.rgba100
    then record { quality = 100; token_size = 4; reversed = false }
    else if name == Names.bgr80
    then record { quality = 80; token_size = 3; reversed = true }
    else if name == Names.rgb80
    then record { quality = 80; token_size = 3; reversed = false }
    else if name == Names.bgr90
    then record { quality = 90; token_size = 3; reversed = true }
    else if name == Names.rgb90
    then record { quality = 90; token_size = 3; reversed = false }
    else if name == Names.bgr100
    then record { quality = 100; token_size = 3; reversed = true }
    else if name == Names.rgb100
    then record { quality = 100; token_size = 3; reversed = false }
    else record { quality = 100; token_size = 4; reversed = false }

-- The loop of `_extractAlpha`, over `n` pixels of four bytes.
unfoldable pub extract_alpha : ℕ → List ℕ → Option (List ℕ)
extract_alpha zero bytes = some []
extract_alpha (suc n) (r ∷ g ∷ b ∷ a ∷ bytes) = do alphas ← extract_alpha n bytes; some (a ∷ alphas)
extract_alpha (suc n) (r ∷ g ∷ b ∷ []) = none
extract_alpha (suc n) (r ∷ g ∷ []) = none
extract_alpha (suc n) (r ∷ []) = none
extract_alpha (suc n) [] = none

-- A pixel, in 32 bits, with another alpha.
unfoldable pub with_alpha : ℕ → ℕ → ℕ
with_alpha pixel alpha = u32 ((pixel &&& 0xffffff) + u32 (alpha <<< 24))

-- The loop of `_addAlpha`, over `n` pixels of the output.
unfoldable pub add_alpha : ℕ → List ℕ → List ℕ → Option (List ℕ)
unfolding with_alpha le_word le_bytes
add_alpha zero alphas out = some out
add_alpha (suc n) (alpha ∷ alphas) (r ∷ g ∷ b ∷ a ∷ out) = do
  rest ← add_alpha n alphas out
  some (le_bytes 4 (with_alpha (le_word (r ∷ g ∷ b ∷ a ∷ [])) alpha) ++ rest)
add_alpha (suc n) [] out = none
add_alpha (suc n) (alpha ∷ alphas) (r ∷ g ∷ b ∷ []) = none
add_alpha (suc n) (alpha ∷ alphas) (r ∷ g ∷ []) = none
add_alpha (suc n) (alpha ∷ alphas) (r ∷ []) = none
add_alpha (suc n) (alpha ∷ alphas) [] = none

unfoldable pub uses_alpha : ℕ → Bool
unfolding has_flag
uses_alpha flags = not (has_flag flags ignore_alpha_flag)

unfoldable pub or_empty : Option (List ℕ) → List ℕ
or_empty none = []
or_empty (some jpeg) = jpeg

-- The input `i` of `decompress`.
unfoldable pub first_input : List (List ℕ) → Option (List ℕ)
first_input [] = none
first_input (x ∷ xs) = some x

unfoldable pub second_input : List (List ℕ) → Option (List ℕ)
unfolding first_input
second_input [] = none
second_input (x ∷ xs) = first_input xs

-- The results that the plugin interface hands out: the first `_nResults`.
unfoldable pub get_results : Compressor → List (List ℕ)
get_results c = if c.n_results == 2 then c.colours ∷ c.alphas ∷ [] else c.colours ∷ []

-- `_decompress`, from what the library gives: what the output holds.
unfoldable pub finish_colours :
    List (List ℕ) → Dims → Bool → Compressor → Bool × List ℕ → Option (List ℕ)
unfolding add_alpha second_input
finish_colours inputs dims use_alpha c (done, out) =
    let with_alphas : Option (List ℕ) = do
      alphas ← second_input inputs
      add_alpha (u64 (dims.h * dims.w)) alphas out
    in if done && use_alpha && c.token_size == 4 then with_alphas else some out

module _ (lib : Library) where
  open lib use {tj_compress, tj_decompress, bgr_flag, fast_upsample_flag, sampling_444}

  -- The constructor.
  unfoldable pub new_compressor : ℕ → Compressor
  unfolding settings_of
  new_compressor name =
      let settings = settings_of name in
      record {
        quality = settings.quality;
        token_size = settings.token_size;
        flags = (if settings.reversed then bgr_flag else 0) ||| fast_upsample_flag;
        encoder = false;
        decoder = false;
        colours = [];
        alphas = [];
        n_results = 0;
      }

  -- The end of `compress`, with the encoder and the number of results set.
  unfoldable pub compress_colours : List ℕ → Dims → Compressor → Compressor
  unfolding or_empty
  compress_colours image dims c = record c {
    encoder = true;
    colours = or_empty (
        tj_compress image (u32 dims.w) (u32 (u64 (dims.w * c.token_size))) (u32 dims.h)
          (u32 c.token_size) sampling_444 (u32 c.quality) (u32 c.flags));
  }

  -- `compress`.
  unfoldable pub compress : List ℕ → Dims → ℕ → Compressor → Option Compressor
  unfolding extract_alpha uses_alpha compress_colours
  compress image dims flags c =
      let with_alphas : Option Compressor = do
        alphas ← extract_alpha (u64 (dims.h * dims.w)) image
        some (compress_colours image dims (record c { alphas = alphas; n_results = 2 }))
      in if uses_alpha flags && c.token_size == 4
        then with_alphas
        else some (compress_colours image dims (record c { n_results = 1 }))

  -- `decompress`.
  unfoldable pub decompress :
      List (List ℕ) → List ℕ → Dims → ℕ → Compressor → Option (List ℕ × Compressor)
  unfolding finish_colours uses_alpha first_input
  decompress inputs out dims flags c = do
    jpeg ← first_input inputs
    after ← finish_colours inputs dims (uses_alpha flags) c (
        tj_decompress jpeg out (u32 dims.w) (u32 (u64 (dims.w * c.token_size))) (u32 dims.h)
          (u32 c.token_size) (u32 c.flags))
    some (after, record c { decoder = true })
