-- ===== src/Plugin/Class/Formats.antt =====
-- The template arguments of `_compress` and `_decompress` that each class chooses.
use pression.Base.{ℕ, ◌≤◌, ◌≡◌, refl, arith, Bool, not, List}
use pression.Plugin.Types.{Format}
use pression.Plugin.Float.{Float32}
use pression.Plugin.Codec.{Build, Results, compress, decompress}
use pression.Plugin.Dims.{Dims, has_flag, count_pixels, ignore_alpha_flag}
use pression.Plugin.Class.{
  Class, rle4b, diff_rle4b, rle_yuv, diff_rle_yuv, rle565, rle10a2, rle4hf, diff_rle4hf, pixel_size,
  compress_pixels, decompress_dims,
}
use pression.Plugin.Engine.Rle4B.{rle4b_format, diff_rle4b_format}
use pression.Plugin.Engine.RleYuv.{rle_yuv_format, diff_rle_yuv_format}
use pression.Plugin.Engine.Rle565.{rle565_format}
use pression.Plugin.Engine.Rle10A2.{rle10a2_format}
use pression.Plugin.Engine.Rle4Hf.{rle4hf_format, diff_rle4hf_format}

-- The template arguments that a class chooses: marker, largest component, and format.
abbrev pub class_marker : Class → ℕ
class_marker rle565 = 0x17
class_marker rle4hf = 0xffff
class_marker diff_rle4hf = 0xffff
class_marker _ = 0x42

abbrev pub class_limit : Class → ℕ
class_limit rle4hf = 0xffff
class_limit diff_rle4hf = 0xffff
class_limit _ = 0xff

abbrev pub class_format : Class → Bool → Format
class_format rle4b = rle4b_format
class_format diff_rle4b = diff_rle4b_format
class_format rle_yuv = rle_yuv_format
class_format diff_rle_yuv = diff_rle_yuv_format
class_format rle565 = rle565_format
class_format rle10a2 = λ alpha. rle10a2_format
class_format rle4hf = rle4hf_format
class_format diff_rle4hf = diff_rle4hf_format

pub two-le-limit : (c : Class) → 2 ≤ class_limit c
two-le-limit rle565 = omega arith
two-le-limit _ = omega arith

-- Each class passes these arguments on.
pub compress_pixels-format :
    (c : Class) (fl : Float32) (build : Build) (image : List ℕ) (n : ℕ) (alpha : Bool) (r : Results)
    → compress_pixels c fl build image n alpha r
      ≡ compress fl
          (class_marker c)
          (class_limit c)
          (pixel_size c)
          (class_format c alpha)
          build
          n
          image
          r
unfolding compress_pixels
compress_pixels-format rle565 fl build image n alpha r = refl
compress_pixels-format _ fl build image n alpha r = refl

pub decompress_dims-format :
    (c : Class) (fl : Float32) (inputs : List (List ℕ)) (out : List ℕ) (dims : Dims) (flags : ℕ)
    → decompress_dims c fl inputs out dims flags
      ≡ decompress fl
          (class_marker c)
          (class_limit c)
          (pixel_size c)
          (class_format c (not (has_flag flags ignore_alpha_flag)))
          (count_pixels dims flags)
          inputs
          out
unfolding decompress_dims
decompress_dims-format rle565 fl inputs out dims flags = refl
decompress_dims-format _ fl inputs out dims flags = refl
