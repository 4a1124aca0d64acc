-- ===== src/Tests/Through.antt =====
-- An image that goes through the host library and the plugin.
use pression.Base.{◌≡◌, refl, arith, true, not, ◌++◌, map, length, drop, some}
use pression.Plugin.Dims.{has_flag, ignore_alpha_flag}
use pression.Plugin.Class.RoundTrip.{kept}
use pression.Plugin.Float.Binary.{binary32, binary32-IsExact}
use pression.Plugin.Api
use pression.Host.Instance.{Instance, empty_ledger}
use pression.Host.Compressor.{uses}
use pression.Host.Compressor.Results.{compress, get_result}
use pression.Host.Decompressor
use pression.Host.Decompressor.{Result, decompress}
use pression.Plugin.Codec.Serial.{NoneEmpty}
use pression.Host.RoundTrip.{api_entries, api_decompress, host_round_trip}
use pression.Tests.Host.{hundredths, info_of, rle}
use pression.Tests.Api.{
  diff, object, state, diff_found, object_valid, diff_class, image, place, dims, two_pixels,
  image_pixels,
}

-- A compressor and a decompressor for the same engine; the object is the second that the plugin made.
abbrev user : Instance hundredths
user = record {
  plugin = some rle;
  object = some 1;
  info = some (info_of 0x10 0x1908 206);
  ledger = empty_ledger;
}

compressor_used : uses hundredths 0x10 user ≡ true
unfolding uses
compressor_used = refl

decompressor_used : Decompressor.uses hundredths 0x10 user ≡ true
unfolding Decompressor.uses
decompressor_used = refl

host_round_trip_example :
    (after : Api.State) × (compress
        (api_entries hundredths binary32 (λ reserved old. reserved))
        image
        dims
        4
        user
        state
      ≡ some after)
    × (result : Result) × (get_result
          (api_entries hundredths binary32 (λ reserved old. reserved))
          user
          after
        ≡ some result)
    × NoneEmpty result.chunks
    × (decompress hundredths
          (api_decompress hundredths binary32 (λ reserved old. reserved) after)
          result
          place
          dims
          4
          user
        ≡ some (
          true,
          map (kept diff.class (not (has_flag 4 ignore_alpha_flag))) image
              ++ drop (length image) place,
        ))
host_round_trip_example =
    host_round_trip hundredths binary32 (λ reserved old. reserved) 0x10 1 user user state diff
      object image place dims 4 compressor_used refl decompressor_used diff_found object_valid
      diff_class (λ reserved old. omega arith) binary32-IsExact (omega arith) (omega arith)
      two_pixels image_pixels (omega arith)
