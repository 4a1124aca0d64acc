-- ===== src/Tests/Data.antt =====
-- The compressors of binary data at concrete inputs.
use pression.Base.{
  ℕ, ap, ◌+◌, ◌*◌, ◌^◌, ◌≤◌, ◌<◌, ◌≡◌, refl, arith, ltb, true, not, ◌&&◌, if◌then◌else◌, List, [],
  ◌∷◌, ◌++◌, length, drop, none, some,
}
use pression.Data.Compressor.{Codec, State, count_parts, add_totals, finished, compress, decompress}
use pression.Base.Buffer.{slice}
use pression.Data.Compressor.Parts.{IsLossless, AreStored}
use pression.Data.Compressor.Count.{is_accepted}
use pression.Data.Compressor.Accept.{left_behind, decompress-is_accepted}
use pression.Data.Compressor.RoundTrip.{decompress-compress_bytes}
use pression.Data.Word.{AllBelow}
use pression.Data.Rle.{compress_bound, compress_chunk, rle_codec}
use pression.Data.Rle.RoundTrip.{rle_codec-IsLossless}
use pression.Data.Rle.Overrun.{length-compress_chunk, length-compress_chunk-alternating}
use pression.Rle.Bound.{alternating}
use pression.Data.Registry.{
  Ratings, CompressorInfo, register_engine, rate, choose, find, no_info, first_rating,
}
use pression.Data.Registry.Choose.{Candidate, IsHighest, choose-IsBest}
use pression.Data.Registry.RoundTrip.{
  Class, registered, AllClasses, Handles, is_above, recommended_round_trip,
}

-- Thirteen bytes in chunks of four.
abbrev thirteen : List ℕ
thirteen = 1 ∷ 1 ∷ 1 ∷ 1 ∷ 66 ∷ 2 ∷ 3 ∷ 4 ∷ 5 ∷ 5 ∷ 5 ∷ 5 ∷ 66 ∷ []

abbrev fresh : State
fresh = record { total_in = 0; total_out = 0; compressed = [] }

abbrev used : State
used = record { total_in = 5; total_out = 3; compressed = (1 ∷ []) ∷ [] }

abbrev place : List ℕ
place = thirteen ++ (9 ∷ 9 ∷ [])

-- The marker in one byte is stored in three.
marker_stored : compress_chunk true (66 ∷ []) 1 [] ≡ 66 ∷ 66 ∷ 1 ∷ []
unfolding compress_chunk
marker_stored = refl

rle_codec-IsLossless_example : IsLossless (rle_codec true 4)
rle_codec-IsLossless_example = rle_codec-IsLossless 4 (omega arith)

thirteen_bytes : AllBelow 256 thirteen
thirteen_bytes = (
  omega arith,
  (
    omega arith,
    (
      omega arith,
      (
        omega arith,
        (
          omega arith,
          (
            omega arith,
            (
              omega arith,
              (
                omega arith,
                (omega arith, (omega arith, (omega arith, (omega arith, (omega arith, tt))))),
              ),
            ),
          ),
        ),
      ),
    ),
  ),
)

chunk_pos : 0 < (rle_codec true 4).get_chunk_size
unfolding rle_codec
chunk_pos = omega arith

small : length thirteen + (rle_codec true 4).get_chunk_size < 2 ^ 64
unfolding rle_codec
small = omega arith

few : count_parts (rle_codec true 4) (length thirteen) < 2 ^ 31
unfolding count_parts rle_codec
few = omega arith

-- Memory of eight bytes more than is reserved.
abbrev roomy : ℕ → List ℕ → ℕ
roomy reserved old = reserved + 8

rle_stored : (chunk_size : ℕ) → AreStored roomy (rle_codec true chunk_size)
unfolding rle_codec
rle_stored chunk_size bytes old a =
    omega (arith, length-compress_chunk bytes, ap length (same bytes old))
  where
    same :
        (bytes old : List ℕ)
        → compress_chunk true bytes (length bytes) old ≡ compress_chunk true bytes (length bytes) []
    same bytes old = unfold compress_chunk in refl

-- With the memory that is reserved, the marker alone is stored behind it.
marker_overruns :
    compress (rle_codec true 4) (λ reserved old. reserved) true (66 ∷ []) 1 fresh ≡ none
unfolding compress rle_codec slice
marker_overruns = refl

decompress-compress_bytes_example :
    (new : State) × (compress (rle_codec true 4) roomy true thirteen (length thirteen) used
      ≡ some new)
    × (new' : State) × (decompress (rle_codec true 4) new.compressed place (length thirteen) fresh
        ≡ finished new' (thirteen ++ drop (length thirteen) place))
decompress-compress_bytes_example =
    decompress-compress_bytes roomy (rle_codec true 4) true thirteen place used fresh
      (rle_codec-IsLossless 4 (omega arith)) (rle_stored 4) thirteen_bytes small few (omega arith)

-- Of thirteen bytes, two chunks of four are refused.
decompress-is_accepted_example :
    left_behind
      (decompress (rle_codec true 4) ((1 ∷ []) ∷ (2 ∷ []) ∷ []) place (length thirteen) used)
    ≡ (if ltb 1 2 && not (is_accepted (rle_codec true 4) chunk_pos (length thirteen) small 2)
        then some (add_totals (length thirteen) ((1 ∷ []) ∷ (2 ∷ []) ∷ []) used)
        else none)
decompress-is_accepted_example =
    decompress-is_accepted (rle_codec true 4) ((1 ∷ []) ∷ (2 ∷ []) ∷ []) place (length thirteen)
      used chunk_pos small

length-compress_chunk_example :
    length (compress_chunk true thirteen (length thirteen) [])
    ≤ compress_bound (length thirteen) + 8
length-compress_chunk_example = length-compress_chunk thirteen

length-compress_chunk-alternating_example :
    length (compress_chunk true (66 ∷ alternating 66 5 1) (length (66 ∷ alternating 66 5 1)) [])
    ≡ compress_bound (length (66 ∷ alternating 66 5 1)) + 1
length-compress_chunk-alternating_example =
    length-compress_chunk-alternating 5 1 (λ e. absurd (omega arith))

-- Numbers in hundredths, with the power left out.
abbrev whole_ratings : Ratings
whole_ratings = record {
  Number = ℕ;
  tenths = λ n. n * 10;
  powf = λ a b. a * 100;
  divided = λ a b. a;
  greater = λ a b. ltb b a;
}

abbrev slow : CompressorInfo ℕ
slow = record { name = 1 ∷ []; ratio = 50; speed = 5; create = none }

abbrev fast : CompressorInfo ℕ
fast = record { name = 2 ∷ []; ratio = 98; speed = 150; create = none }

choose-IsBest_example :
    (result : Candidate whole_ratings) × (choose whole_ratings (slow ∷ fast ∷ []) ≡ result.0)
    × IsHighest whole_ratings
        (slow ∷ fast ∷ [])
        (no_info whole_ratings, first_rating whole_ratings)
        result
choose-IsBest_example =
    choose-IsBest whole_ratings (slow ∷ fast ∷ [])
      (record { irreflexive = λ a. ground arith; transitive = λ a b c p q. ground arith })

-- Two classes, of which the one with another name is rated above the default.
abbrev classes : List (Class ℕ)
classes =
    record { name = 1 ∷ []; codec = rle_codec true 8; info = slow }
    ∷ record { name = 2 ∷ []; codec = rle_codec true 4; info = fast }
    ∷ []

both_handle : AllClasses (Handles roomy (length thirteen)) classes
unfolding count_parts rle_codec
both_handle = (
  (rle_codec-IsLossless 8 (omega arith), rle_stored 8, omega arith, omega arith),
  ((rle_codec-IsLossless 4 (omega arith), rle_stored 4, omega arith, omega arith), tt),
)

one_above : is_above whole_ratings (registered classes []) ≡ true
unfolding rate register_engine
one_above = refl

-- The second class is recommended.
fast_recommended : (choose whole_ratings (registered classes [])).name ≡ 2 ∷ []
unfolding choose register_engine
fast_recommended = refl

recommended_round_trip_example :
    let infos = registered classes [] in
    (codec : Codec) × ((find whole_ratings (choose whole_ratings infos).name infos).create
      ≡ some codec)
    × (new : State) × (compress codec roomy true thirteen (length thirteen) used ≡ some new)
    × (new' : State) × (decompress codec new.compressed place (length thirteen) fresh
        ≡ finished new' (thirteen ++ drop (length thirteen) place))
recommended_round_trip_example =
    recommended_round_trip whole_ratings classes roomy true thirteen place used fresh
      (record { irreflexive = λ a. ground arith; transitive = λ a b c p q. ground arith })
      both_handle one_above thirteen_bytes (omega arith)
