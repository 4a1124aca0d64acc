-- ===== src/Tests/Divided.antt =====
-- Images that are divided with the arithmetic of IEEE 754.
use pression.Base.{
  ℕ, zero, suc, true, ◌+◌, ◌*◌, ◌/◌, ◌^◌, ◌≤◌, ◌<◌, ◌≡◌, refl, sym, ◌∙◌, arith, u64, List, [], ◌∷◌,
  length, Option, replicate, length-replicate, none, some,
}
use mathlib.Core.List.{Permᴰ}
use pression.Plugin.Float.Binary.{binary32, of_uint, times, divided, to_uint}
use pression.Plugin.Float.Round.{round}
use pression.Plugin.Codec.{decompress}
use pression.Plugin.Codec.Borders.{first_of, first_of-IsDivision, chunk_size-whole}
use pression.Plugin.Codec.Order.{decompress_chunk, decompress_any_order}
use pression.Plugin.Codec.Order.Schedule.{run}
use pression.Plugin.Engine.Rle4B.{diff_rle4b_format}
use pression.Plugin.Dims.{Dims, count_pixels}
use pression.Plugin.Codec.{Build, count_chunks, chunk_size, max_chunk_size, Results}
use pression.Plugin.Codec.Stored.{HasRoom}
use pression.Plugin.Class.{rle4b, diff_rle4b, rle565, rle4hf, compress_dims}
use pression.Plugin.Class.RoundTrip.{ArePixels}
use pression.Plugin.Class.Even.{even_round_trip}
use pression.Plugin.Class.Divided.{
  RoundTripUpTo, all_but_one_round_trip, last_pixel_lost, read_behind,
}

abbrev fresh : Results
fresh = record { buffers = []; n_results = 0 }

abbrev columns : ℕ → Dims
columns n = record { x = 0; w = n; y = 0; h = 1 }

-- Images of one colour, and the memory that they are decompressed to.
unfoldable colour : ℕ → List ℕ
colour n = replicate n 5

unfoldable place : ℕ → List ℕ
place n = replicate n 0

length-colour : (n : ℕ) → length (colour n) ≡ n
unfolding colour
length-colour n = length-replicate n 5

length-place : (n : ℕ) → length (place n) ≡ n
unfolding place
length-place n = length-replicate n 0

uniform : (size n : ℕ) → 5 < 2 ^ (8 * size) → ArePixels size (colour n)
unfolding colour
uniform size zero h = tt
uniform size (suc n) h = (h, uniform size n h)

columns_counted : (n : ℕ) → n < 2 ^ 24 → count_pixels (columns n) 4 ≡ n
unfolding count_pixels
columns_counted n h = omega (arith, h)

counted : (n : ℕ) → n < 2 ^ 24 → count_pixels (columns n) 4 ≡ length (colour n)
counted n h = columns_counted n h ∙ sym (length-colour n)

fits : (n : ℕ) → length (colour n) ≤ length (place n)
fits n = omega (arith, length-colour n, length-place n)

few_pixels : length (colour 9000) < 2 ^ 23
few_pixels = omega (arith, length-colour 9000)

-- The memory is as large as reserved, and a byte larger.
abbrev exact : Option ℕ → Build
exact processors = record { processors = processors; capacity = λ reserved old. reserved }

abbrev larger : ℕ → List ℕ → ℕ
larger reserved old = reserved + 1

-- Three chunks of 3000 pixels each.
thirds : (i : ℕ) → i < 3 → chunk_size binary32 9000 12 i ≡ 3000
thirds i h = chunk_size-whole 3000 3 i (omega arith) (omega arith) (omega arith) h

three_chunks : count_chunks (some 3) 4 (u64 (9000 * 8)) ≡ 12
unfolding count_chunks
three_chunks = refl

room_9000 : HasRoom binary32 8 (exact (some 3)) (length (colour 9000))
unfolding max_chunk_size
room_9000 = rw (length-colour 9000) (λ i h old.
    let below : i < 12 / 4 = rw three_chunks at h in
    rw three_chunks (omega (arith, thirds i (omega (arith, below)))))

halves : count_chunks (some 2) 4 (u64 (length (colour 2048) * 4)) ≡ 2 * 4
unfolding count_chunks
halves = rw (length-colour 2048) refl

even_pixels : length (colour 2048) < 2 ^ 24
even_pixels = omega (arith, length-colour 2048)

all_but_one_round_trip_example :
    (reach : ℕ) × (reach ≤ length (colour 9000))
    × (length (colour 9000) ≤ reach + 1)
    × RoundTripUpTo rle4hf (exact (some 3)) (colour 9000) (place 9000) (columns 9000) 4 fresh reach
all_but_one_round_trip_example =
    all_but_one_round_trip rle4hf (exact (some 3)) (colour 9000) (place 9000) (columns 9000) 4 fresh
      (omega arith, omega arith) room_9000 few_pixels (counted 9000 (omega arith))
      (uniform 8 9000 (omega arith)) (fits 9000)

even_round_trip_example :
    RoundTripUpTo diff_rle4b
      (exact (some 2))
      (colour 2048)
      (place 2048)
      (columns 2048)
      4
      fresh
      (length (colour 2048))
even_round_trip_example =
    even_round_trip diff_rle4b (exact (some 2)) (colour 2048) (place 2048) (columns 2048) 4 fresh
      1024 2 (λ reserved old. omega arith) (omega arith, omega arith) (length-colour 2048) halves
      even_pixels (counted 2048 (omega arith)) (uniform 4 2048 (omega arith)) (fits 2048)

last_pixel_lost_example :
    RoundTripUpTo rle565
      (record { processors = some 8; capacity = larger })
      (colour 7173)
      (place 7173)
      (columns 7173)
      4
      fresh
      7172
last_pixel_lost_example =
    last_pixel_lost rle565 8 larger (colour 7173) (place 7173) (columns 7173) 4 fresh
      (λ reserved before. omega arith) refl (omega arith) (omega arith) (length-colour 7173)
      (counted 7173 (omega arith)) (uniform 4 7173 (omega arith)) (fits 7173)

read_behind_example :
    compress_dims rle4b binary32 (exact (some 13)) (colour 16384000) (columns 16384000) 4 fresh
    ≡ none
read_behind_example =
    read_behind rle4b (λ reserved old. reserved) (colour 16384000) (columns 16384000) 4 fresh
      (length-colour 16384000) (counted 16384000 (omega arith))

-- Nine pixels in two chunks, the second of which is decompressed first.
abbrev four_tokens : List ℕ
four_tokens = 5 ∷ 6 ∷ 7 ∷ 8 ∷ []

abbrev five_tokens : List ℕ
five_tokens = 1 ∷ 66 ∷ 2 ∷ 4 ∷ []

abbrev inputs : List (List ℕ)
inputs =
    four_tokens ∷ four_tokens ∷ four_tokens ∷ four_tokens ∷ five_tokens ∷ five_tokens ∷ five_tokens
    ∷ five_tokens ∷ []

two_chunks : first_of 9 2 2 ≡ 9
unfolding of_uint times divided to_uint round
two_chunks = refl

decompress_any_order_example :
    run
      (decompress_chunk binary32 66 255 (diff_rle4b_format true) 9 (length inputs) inputs)
      (1 ∷ 0 ∷ [])
      (place 12)
    ≡ decompress binary32 66 255 4 (diff_rle4b_format true) 9 inputs (place 12)
decompress_any_order_example =
    decompress_any_order binary32 66 255 4 9 2 (first_of 9 2 2) (diff_rle4b_format true) inputs
      (place 12) (1 ∷ 0 ∷ []) refl
      (first_of-IsDivision 9 2 (omega arith) (omega (arith, two_chunks))) (Permᴰ.swap refl refl)
