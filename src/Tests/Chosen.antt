-- ===== src/Tests/Chosen.antt =====
-- An image for which the host library chooses an engine of the plugin.
use pression.Base.{◌≡◌, refl, arith, true, not, [], ◌∷◌, ◌++◌, map, length, drop, some}
use pression.Plugin.Float.Binary.{binary32}
use pression.Plugin.Dims.{has_flag, ignore_alpha_flag}
use pression.Plugin.Class.{Class, rle4hf, diff_rle4hf, pixel_size}
use pression.Plugin.Class.RoundTrip.{kept, ArePixels}
use pression.Plugin.Engines.{Functions, engine}
use pression.Plugin.Api
use pression.Plugin.Api.{search_functions, new_compressor}
use pression.Host.Plugins.{Info}
use pression.Host.Instance.{fresh}
use pression.Host.Loader.{construct}
use pression.Host.Compressor.{choose, setup_choice}
use pression.Host.Compressor.Results.{compress, get_result}
use pression.Host.Decompressor
use pression.Host.Decompressor.{Result, decompress}
use pression.Plugin.Codec.Serial.{NoneEmpty}
use pression.Host.RoundTrip.{api_entries, api_decompress}
use pression.Host.Chosen.{
  own_plugin, chosen, api_new_compressor, api_new_decompressor, chosen_round_trip,
}
use pression.Host.Chosen.Names.{AreNamed}
use pression.Tests.Host.{hundredths, info_of, wish}
use pression.Tests.Api.{plain, diff, state, image, place, dims, two_pixels}

abbrev blank : Info hundredths
blank = info_of 0 0 0

all_named : AreNamed (plain ∷ diff ∷ [])
unfolding engine
all_named = (refl, (refl, tt))

-- The better of the two engines is chosen.
second_chosen : chosen hundredths (λ n. n) state blank [] wish ≡ 0x10
unfolding choose construct Api.get_info Api.get_num_compressors engine
second_chosen = refl

image_pixels : (c : Class) → ArePixels (pixel_size c) image
image_pixels rle4hf = (omega arith, (omega arith, tt))
image_pixels diff_rle4hf = (omega arith, (omega arith, tt))
image_pixels _ = (omega arith, (omega arith, tt))

chosen_round_trip_example :
    let name = chosen hundredths (λ n. n) state blank [] wish in
    let plugins = own_plugin hundredths (λ n. n) state blank [] wish ∷ [] in
    let (done, c) =
      setup_choice hundredths (api_new_compressor state) plugins wish (fresh hundredths) in
    (g : Functions) × (search_functions name (plain ∷ diff ∷ []) ≡ some g)
    × (done ≡ true)
    × (made : Api.State) × (new_compressor name state ≡ some (length state.instances, made))
    × (let (done', d) =
          Decompressor.setup hundredths
            (api_new_decompressor made)
            plugins
            name
            (fresh hundredths) in
        (done' ≡ true)
        × (after : Api.State) × (compress
              (api_entries hundredths binary32 (λ reserved old. reserved))
              image
              dims
              4
              c
              made
            ≡ some after)
        × (result : Result) × (get_result
              (api_entries hundredths binary32 (λ reserved old. reserved))
              c
              after
            ≡ some result)
        × NoneEmpty result.chunks
        × (decompress hundredths
              (api_decompress hundredths binary32 (λ reserved old. reserved) after)
              result
              place
              dims
              4
              d
            ≡ some (
              true,
              map (kept g.class (not (has_flag 4 ignore_alpha_flag))) image
                  ++ drop (length image) place,
            )))
chosen_round_trip_example =
    chosen_round_trip hundredths (λ n. n) state (plain ∷ diff ∷ []) blank [] wish
      (λ reserved old. reserved) image place dims 4 refl all_named (omega (arith, second_chosen))
      (λ reserved old. omega arith) (omega arith) (omega arith) two_pixels
      (λ g known. image_pixels g.class) (omega arith)
