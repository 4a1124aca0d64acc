-- ===== src/Plugin/Class/Divided.antt =====
-- What each compressor class keeps of an image under the arithmetic of IEEE 754, in a build with and without
-- OpenMP, on any number of processors.
use pression.Base.{
  ℕ, zero, suc, ◌+◌, ◌*◌, ◌/◌, ◌^◌, ◌≤◌, ◌<◌, ◌≡◌, refl, ap, ◌∙◌, arith, not, List, ◌++◌, map,
  length, take, drop, Option, none, some, u64,
}
use pression.Plugin.Float.Binary.{binary32, of_uint, times, divided, to_uint}
use pression.Plugin.Float.Round.{round}
use pression.Plugin.Codec.{
  Build, count_chunks, max_chunk_size, start_index, first_of_chunk, chunk_size, Results,
}
use pression.Plugin.Codec.Stored.{HasRoom}
use pression.Plugin.Codec.RoundTrip.{IsDivision, count_chunks-mod}
use pression.Plugin.Codec.Borders.{first_of, first_of-IsDivision, first_of-last}
use pression.Plugin.Dims.{Dims, has_flag, count_pixels, ignore_alpha_flag}
use pression.Plugin.Class.{
  Class, rle4hf, diff_rle4hf, pixel_size, compress_pixels, compress_dims, decompress_dims,
}
use pression.Plugin.Class.Formats.{class_marker, class_limit, class_format, compress_pixels-format}
use pression.Plugin.Codec.Overread.{compress-overread}
use pression.Plugin.Class.RoundTrip.{kept, ArePixels, decompress_dims-compress_dims}

-- A build without OpenMP, or a machine with a number of processors that an `unsigned` can hold four times.
abbrev pub IsMachine : Option ℕ → Type 0
IsMachine none = Unit {0}
IsMachine (some procs) = (0 < procs) × (procs < 2 ^ 30)

pub size_small : (c : Class) (n : ℕ) → n < 2 ^ 24 → u64 (n * pixel_size c) < 2 ^ 27
size_small rle4hf n h = omega (arith, h)
size_small diff_rle4hf n h = omega (arith, h)
size_small _ n h = omega (arith, h)

-- There are four results or more, and not too many.
pub count_chunks-range :
    (openmp : Option ℕ) (size : ℕ)
    → IsMachine openmp
    → size < 2 ^ 27
    → (0 < count_chunks openmp 4 size / 4) × (count_chunks openmp 4 size / 4 < 2 ^ 24)
unfolding count_chunks
count_chunks-range none size h small = (omega arith, omega arith)
count_chunks-range (some procs) size (pos, few) small = ground (arith, pos, few, small)

module _ (c : Class) (build : Build) (image out : List ℕ) (dims : Dims) (flags : ℕ)
    (old : Results) where
  abbrev n_chunks : ℕ
  n_chunks = count_chunks build.processors 4 (u64 (length image * pixel_size c))

  -- What comes back of an image up to a pixel.
  abbrev pub RoundTripUpTo : ℕ → Type 0
  RoundTripUpTo reach =
      (new : Results) × (compress_dims c binary32 build image dims flags old ≡ some new)
      × (new.n_results ≤ length new.buffers)
      × (new.n_results ≡ n_chunks)
      × (decompress_dims c binary32 (take new.n_results new.buffers) out dims flags
          ≡ some (
              map (kept c (not (has_flag flags ignore_alpha_flag))) (take reach image)
              ++ drop reach out))

  pub up_to :
      (m : ℕ)
      → HasRoom binary32 (pixel_size c) build (length image)
      → count_pixels dims flags ≡ length image
      → ArePixels (pixel_size c) image
      → length image ≤ length out
      → n_chunks ≡ m * 4
      → length image < 2 ^ 24
      → first_of (length image) m m ≤ length image
      → RoundTripUpTo (first_of (length image) m m)
  up_to m room count pixels fits e small within =
      decompress_dims-compress_dims c binary32 build image out dims flags old
        (first_of (length image) m m) room within division count pixels
        (omega (arith, within, fits))
    where
      quarter : m * 4 / 4 ≡ m
      quarter = omega arith

      division :
          IsDivision binary32 (length image) n_chunks (first_of (length image) m m) (n_chunks / 4)
      division =
          rw (e, quarter)
            (first_of-IsDivision (length image) m small (omega (arith, within, small)))

-- In any build and on any machine, of less than 2 ^ 30 processors, where the memory of each result has room for twice the components of its chunk and
-- one more: each class compresses every image of less than 2 ^ 23 pixels of its type, reading nothing behind the image and
-- storing nothing behind that memory, to as many results as it counts, and decompressing them writes what the class keeps
-- of each pixel but perhaps the last, and changes nothing behind them.
pub all_but_one_round_trip :
    (c : Class) (build : Build) (image out : List ℕ) (dims : Dims) (flags : ℕ) (old : Results)
    → IsMachine build.processors
    → HasRoom binary32 (pixel_size c) build (length image)
    → length image < 2 ^ 23
    → count_pixels dims flags ≡ length image
    → ArePixels (pixel_size c) image
    → length image ≤ length out
    → (reach : ℕ) × (reach ≤ length image)
      × (length image ≤ reach + 1)
      × RoundTripUpTo c build image out dims flags old reach
all_but_one_round_trip c build image out dims flags old machine room small count pixels fits =
    let n = length image in
    let size = u64 (n * pixel_size c) in
    let n_chunks = count_chunks build.processors 4 size in
    let m = n_chunks / 4 in
    let (pos, few) =
      count_chunks-range build.processors size machine (size_small c n (omega (arith, small))) in
    let (le, ge) = first_of-last n m small pos few in
    (
      first_of n m m,
      le,
      ge,
      up_to c build image out dims flags old m room count pixels fits
          (omega (arith, count_chunks-mod build.processors size)) (omega (arith, small)) le,
    )

-- 7173 pixels in seven chunks end one pixel early.
seven_chunks : first_of 7173 7 7 ≡ 7172
unfolding divided of_uint times to_uint round
seven_chunks = refl

chunks_of_7173 :
    (procs : ℕ) → 7 ≤ procs → procs < 2 ^ 30 → count_chunks (some procs) 4 (u64 (7173 * 4)) ≡ 7 * 4
unfolding count_chunks
chunks_of_7173 procs many few = ground (arith, many, few)

-- No chunk has more than 1025 pixels.
size_of_7173 : (i : ℕ) → i < 7 → chunk_size binary32 7173 28 i ≤ 1025
unfolding chunk_size start_index first_of_chunk divided of_uint times to_uint round
size_of_7173 zero h = omega arith
size_of_7173 (suc zero) h = omega arith
size_of_7173 (suc (suc zero)) h = omega arith
size_of_7173 (suc (suc (suc zero))) h = omega arith
size_of_7173 (suc (suc (suc (suc zero)))) h = omega arith
size_of_7173 (suc (suc (suc (suc (suc zero))))) h = omega arith
size_of_7173 (suc (suc (suc (suc (suc (suc zero)))))) h = omega arith
size_of_7173 (suc (suc (suc (suc (suc (suc (suc i))))))) h = absurd (omega arith)

room_7173 :
    (c : Class) (procs : ℕ) (capacity : ℕ → List ℕ → ℕ)
    → ((reserved : ℕ) (before : List ℕ) → reserved + 1 ≤ capacity reserved before)
    → pixel_size c ≡ 4
    → 7 ≤ procs
    → procs < 2 ^ 30
    → HasRoom binary32 (pixel_size c) (record { processors = some procs; capacity = capacity }) 7173
unfolding max_chunk_size
room_7173 c procs capacity roomy four many few i h old =
    let chunks = chunks_of_7173 procs many few in
    let below : i < 7 * 4 / 4 = rw (four, chunks) at h in
    rw (four, chunks) (omega (arith, size_of_7173 i (omega (arith, below)), roomy 2050 old))

-- In an OpenMP build on seven processors or more, where the memory of a result has a byte more than is reserved, so that
-- any image can be stored, no class with pixels of four bytes gives back the last pixel of
-- an image of 7173 pixels.
pub last_pixel_lost :
    (c : Class) (procs : ℕ) (capacity : ℕ → List ℕ → ℕ) (image out : List ℕ) (dims : Dims)
    (flags : ℕ) (old : Results)
    → ((reserved : ℕ) (before : List ℕ) → reserved + 1 ≤ capacity reserved before)
    → pixel_size c ≡ 4
    → 7 ≤ procs
    → procs < 2 ^ 30
    → length image ≡ 7173
    → count_pixels dims flags ≡ length image
    → ArePixels (pixel_size c) image
    → length image ≤ length out
    → RoundTripUpTo c
        (record { processors = some procs; capacity = capacity })
        image
        out
        dims
        flags
        old
        7172
last_pixel_lost c procs capacity image out dims flags old roomy four many few len count pixels
      fits =
    let early : first_of (length image) 7 7 ≡ 7172 = ap (λ n. first_of n 7 7) len ∙ seven_chunks in
    rw early at (
      up_to c (record { processors = some procs; capacity = capacity }) image out dims flags old 7
        (rw len (room_7173 c procs capacity roomy four many few)) count pixels fits
        (rw (len, four) (chunks_of_7173 procs many few)) (omega (arith, len))
        (omega (arith, early, len)))

-- 16384000 pixels in 13 chunks end one pixel late.
thirteen_chunks : first_of 16384000 13 13 ≡ 16384001
unfolding divided of_uint times to_uint round
thirteen_chunks = refl

chunks_of_16384000 : (c : Class) → count_chunks (some 13) 4 (u64 (16384000 * pixel_size c)) ≡ 13 * 4
unfolding count_chunks
chunks_of_16384000 rle4hf = refl
chunks_of_16384000 diff_rle4hf = refl
chunks_of_16384000 _ = refl

-- In an OpenMP build on 13 processors, each class reads behind every image of 16384000 pixels, such as one of 5120 times 3200.
pub read_behind :
    (c : Class) (capacity : ℕ → List ℕ → ℕ) (image : List ℕ) (dims : Dims) (flags : ℕ)
    (old : Results)
    → length image ≡ 16384000
    → count_pixels dims flags ≡ length image
    → compress_dims c binary32
        (record { processors = some 13; capacity = capacity })
        image
        dims
        flags
        old
      ≡ none
unfolding compress_dims
read_behind c capacity image dims flags old len count =
    let alpha = not (has_flag flags ignore_alpha_flag) in
    let late : first_of (length image) 13 13 ≡ 16384001 =
      ap (λ n. first_of n 13 13) len ∙ thirteen_chunks in
    let chunks : count_chunks (some 13) 4 (u64 (length image * pixel_size c)) ≡ 13 * 4 =
      rw len (chunks_of_16384000 c) in
    ap
      (λ n.
        compress_pixels c binary32 (record { processors = some 13; capacity = capacity }) image n
          alpha old)
      count
    ∙ compress_pixels-format c binary32 (record { processors = some 13; capacity = capacity }) image
        (length image) alpha old
    ∙ compress-overread binary32 (class_marker c) (class_limit c) (pixel_size c)
        (class_format c alpha) (record { processors = some 13; capacity = capacity }) image old
        (first_of (length image) 13 13) 12 (rw chunks refl)
        (rw chunks
          (first_of-IsDivision (length image) 13 (omega (arith, len)) (omega (arith, late))))
        (omega (arith, late, len))
