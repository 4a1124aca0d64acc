-- ===== src/Tests/Api.antt =====
-- The C interface of the plugin, and an image in two chunks, at concrete inputs.
use pression.Base.{
  ℕ, ◌+◌, ◌*◌, ◌≡◌, refl, arith, not, List, [], ◌∷◌, ◌++◌, map, length, drop, none, some, inl, inr,
  true,
}
use pression.Rle.Bound.{alternating}
use pression.Plugin.Types.{Swizzle4, use_alpha}
use pression.Plugin.Float.Binary.{binary32, binary32-IsExact}
use pression.Plugin.Chunk.{compress_chunk}
use pression.Plugin.Codec.{count_chunks, chunk_size, max_chunk_size}
use pression.Plugin.Codec.Overrun.{binary_overrun}
use pression.Plugin.Codec.{serial}
use pression.Plugin.Codec.Serial.{NoneEmpty}
use pression.Plugin.Dims.{Dims, has_flag, count_pixels, ignore_alpha_flag}
use pression.Plugin.Swizzle.Rle4B.{no_swizzle4, no_deswizzle4}
use pression.Plugin.Class.{rle4b, diff_rle4b, pixel_size}
use pression.Plugin.Class.RoundTrip.{kept, ArePixels}
use pression.Plugin.Engines.{
  Functions, engine, rle4b_engines, rle4hf_engines, rle565_engines, rle10a2_engines,
  rle_yuv_engines,
}
use pression.Plugin.Api.{
  Instance, State, search_functions, find_functions, register_engine, is_tested, is_compatible,
  instance_at, get_num_results, get_results, compress, decompress,
}
use pression.Plugin.Api.Find.{AreDistinct, find_functions-register_engine}
use pression.Plugin.Api.RoundTrip.{decompress-get_results}

-- The names of all engines that this repository registers are different.
engines-AreDistinct :
    AreDistinct (
      rle4b_engines ++ (rle4hf_engines ++ (rle565_engines ++ (rle10a2_engines ++ rle_yuv_engines))))
unfolding search_functions rle4b_engines rle4hf_engines rle565_engines rle10a2_engines
    rle_yuv_engines
engines-AreDistinct = (
  refl,
  (
    refl,
    (
      refl,
      (
        refl,
        (
          refl,
          (
            refl,
            (
              refl,
              (
                refl,
                (
                  refl,
                  (
                    refl,
                    (
                      refl,
                      (
                        refl,
                        (
                          refl,
                          (
                            refl,
                            (refl, (refl, (refl, (refl, (refl, (refl, (refl, (refl, tt)))))))),
                          ),
                        ),
                      ),
                    ),
                  ),
                ),
              ),
            ),
          ),
        ),
      ),
    ),
  ),
)

abbrev pub plain : Functions
plain = engine rle4b 0x21 0x1908 100 59 100 true

abbrev pub diff : Functions
diff = engine diff_rle4b 0x10 0x1908 100 50 110 true

abbrev pub other : Functions
other = engine diff_rle4b 0x11 0x401 100 50 110 true

abbrev pub object : Instance
object = record { class = diff_rle4b; results = record { buffers = (1 ∷ []) ∷ []; n_results = 1 } }

abbrev pub state : State
state = record { functions = some (plain ∷ diff ∷ []); instances = none ∷ some object ∷ [] }

two_names : AreDistinct (plain ∷ diff ∷ [])
unfolding search_functions engine
two_names = (refl, (refl, tt))

third_name : search_functions other.name (plain ∷ diff ∷ []) ≡ none
unfolding search_functions engine
third_name = refl

find_functions-register_engine_example :
    (find_functions diff.name state ≡ some diff)
    × (find_functions diff.name (register_engine other state) ≡ some diff)
    × (find_functions other.name (register_engine other state) ≡ some other)
    × (is_compatible diff.name 5 (register_engine other state)
        ≡ some (is_tested diff.is_compatible 5))
find_functions-register_engine_example =
    find_functions-register_engine state (plain ∷ diff ∷ []) diff other 5 refl two_names
      (inr (inl refl)) third_name

pub diff_found : find_functions 0x10 state ≡ some diff
unfolding find_functions search_functions engine
diff_found = refl

pub object_valid : instance_at 1 state ≡ some object
unfolding instance_at
object_valid = refl

abbrev pub image : List ℕ
image = 0x11223344 ∷ 0x42424242 ∷ []

abbrev pub place : List ℕ
place = 0 ∷ 0 ∷ 7 ∷ []

abbrev pub dims : Dims
dims = record { x = 0; w = 1; y = 0; h = 2 }

pub two_pixels : count_pixels dims 4 ≡ 2
unfolding count_pixels
two_pixels = refl

pub diff_class : diff_rle4b ≡ diff.class
unfolding engine
diff_class = refl

pub image_pixels : ArePixels (pixel_size diff.class) image
unfolding engine
image_pixels = (omega arith, (omega arith, tt))

decompress-get_results_example :
    (after : State) × (compress binary32 (serial (λ reserved old. reserved)) 1 image dims 4 state
      ≡ some after)
    × (n : ℕ) × (get_num_results 1 after ≡ some n)
    × (n ≡ 4)
    × (results : List (List ℕ)) × (get_results 1 n 0 after ≡ some results)
    × NoneEmpty results
    × (decompress binary32 (serial (λ reserved old. reserved)) 0x10 results place dims 4 after
        ≡ some (
            map (kept diff.class (not (has_flag 4 ignore_alpha_flag))) image
            ++ drop (length image) place))
decompress-get_results_example =
    decompress-get_results binary32 (λ reserved old. reserved) 0x10 1 state diff object image place
      dims 4 diff_found object_valid diff_class (λ reserved old. omega arith) binary32-IsExact
      (omega arith) (omega arith) two_pixels image_pixels (omega arith)

abbrev bytes : Swizzle4
bytes = record { split = no_swizzle4; join = no_deswizzle4 }

marker_first : (bytes.split 0x42).one ≡ 0x42
unfolding no_swizzle4
marker_first = refl

other_first : (bytes.split 0x05).one ≡ 5
unfolding no_swizzle4
other_first = refl

binary_overrun_example :
    let part = 0x42 ∷ alternating 0x42 5 600 in
    (count_chunks (some 2) 4 ((4 * 600 + 1) * 4) ≡ 8)
    × (chunk_size binary32 (4 * 600 + 1) 8 1 ≡ length part)
    × (length (compress_chunk 66 255 (use_alpha bytes) part).one
        ≡ max_chunk_size ((4 * 600 + 1) * 4) 8 + 1)
binary_overrun_example =
    binary_overrun bytes 66 255 5 0x42 0x05 600 (omega arith) (omega arith) (omega arith)
      (λ e. absurd (omega arith)) marker_first other_first
