-- ===== src/Plugin/Class/Even.antt =====
-- What each compressor class keeps of an image whose pixels are divided evenly, or into a power of two of chunks, under
-- the arithmetic of IEEE 754.
use native.Mathlib.Nat.{mul-div_cancel}
use pression.Base.{ℕ, ◌+◌, ◌*◌, ◌/◌, ◌^◌, ◌≤◌, ◌<◌, ◌≡◌, sym, ap, ◌∙◌, arith, List, length, u64}
use pression.Plugin.Float.Binary.{binary32}
use pression.Plugin.Codec.{Build, count_chunks, max_chunk_size, Results}
use pression.Plugin.Codec.Stored.{HasRoom, Reserves}
use pression.Plugin.Codec.Borders.{first_of, first_of-power, first_of-whole, chunk_size-whole}
use pression.Plugin.Dims.{Dims, count_pixels}
use pression.Plugin.Class.{Class, rle4hf, diff_rle4hf, pixel_size}
use pression.Plugin.Class.RoundTrip.{ArePixels}
use pression.Plugin.Class.Divided.{IsMachine, RoundTripUpTo, size_small, count_chunks-range, up_to}

-- If the number of chunks is a power of two, as in every build without OpenMP, nothing is lost of an image of less
-- than 2 ^ 24 pixels, where the memory has that room.
pub power_round_trip :
    (c : Class) (build : Build) (image out : List ℕ) (dims : Dims) (flags : ℕ) (old : Results)
    (j : ℕ)
    → HasRoom binary32 (pixel_size c) build (length image)
    → count_chunks build.processors 4 (u64 (length image * pixel_size c)) ≡ 2 ^ j * 4
    → j < 24
    → length image < 2 ^ 24
    → count_pixels dims flags ≡ length image
    → ArePixels (pixel_size c) image
    → length image ≤ length out
    → RoundTripUpTo c build image out dims flags old (length image)
power_round_trip c build image out dims flags old j room e few small count pixels fits =
    let whole : first_of (length image) (2 ^ j) (2 ^ j) ≡ length image =
      first_of-power (length image) j small few in
    rw whole at (
      up_to c build image out dims flags old (2 ^ j) room count pixels fits e small
        (omega (arith, whole)))

-- What is reserved for an image of `q` pixels for each of `m` chunks.
reserved_even :
    (c : Class) (q m : ℕ)
    → 0 < m
    → m * q < 2 ^ 24
    → (2 * q + 1) * (pixel_size c / 4) ≤ max_chunk_size (u64 (m * q * pixel_size c)) (m * 4)
unfolding max_chunk_size
reserved_even c q m pos small = by_class c
  where
    whole_four : u64 (m * q * 4) ≡ q * (m * 4)
    whole_four =
        let exact : u64 (m * q * 4) ≡ m * q * 4 = omega (arith, small) in exact ∙ grind arith

    whole_eight : u64 (m * q * 8) ≡ 2 * q * (m * 4)
    whole_eight =
        let exact : u64 (m * q * 8) ≡ m * q * 8 = omega (arith, small) in exact ∙ grind arith

    four : u64 (m * q * 4) / (m * 4) ≡ q
    four = ap (λ (t : ℕ). t / (m * 4)) whole_four ∙ mul-div_cancel q (omega (arith, pos))

    eight : u64 (m * q * 8) / (m * 4) ≡ 2 * q
    eight = ap (λ (t : ℕ). t / (m * 4)) whole_eight ∙ mul-div_cancel (2 * q) (omega (arith, pos))

    by_class :
        (c : Class)
        → (2 * q + 1) * (pixel_size c / 4) ≤ (u64 (m * q * pixel_size c) / (m * 4) + 1) * 2
    by_class rle4hf = omega (arith, eight)
    by_class diff_rle4hf = omega (arith, eight)
    by_class _ = omega (arith, four)

even-HasRoom :
    (c : Class) (build : Build) (q m : ℕ)
    → 0 < m
    → m < 2 ^ 24
    → m * q < 2 ^ 24
    → count_chunks build.processors 4 (u64 (m * q * pixel_size c)) ≡ m * 4
    → Reserves build.capacity
    → HasRoom binary32 (pixel_size c) build (m * q)
even-HasRoom c build q m pos few small e reserves i h old =
    let below : i < m = omega (arith, h, e) in
    rw (e, chunk_size-whole q m i small few pos below)
      (omega (
        arith,
        reserved_even c q m pos small,
        reserves (max_chunk_size (u64 (m * q * pixel_size c)) (m * 4)) old,
      ))

-- If the number of chunks, which is one in a build without OpenMP, divides the number of pixels, which is less than
-- 2 ^ 24, on less than 2 ^ 30 processors: with memory that has the size that is reserved for it or more, each class compresses every image of pixels of its
-- type, storing nothing behind that memory, and decompressing the results writes what the class keeps of every pixel.
pub even_round_trip :
    (c : Class) (build : Build) (image out : List ℕ) (dims : Dims) (flags : ℕ) (old : Results)
    (q m : ℕ)
    → Reserves build.capacity
    → IsMachine build.processors
    → length image ≡ m * q
    → count_chunks build.processors 4 (u64 (length image * pixel_size c)) ≡ m * 4
    → length image < 2 ^ 24
    → count_pixels dims flags ≡ length image
    → ArePixels (pixel_size c) image
    → length image ≤ length out
    → RoundTripUpTo c build image out dims flags old (length image)
even_round_trip c build image out dims flags old q m reserves machine even e small count pixels
      fits =
    let n = length image in
    let many =
      count_chunks-range build.processors (u64 (n * pixel_size c)) machine (size_small c n small) in
    let pos : 0 < m = omega (arith, many, e) in
    let few : m < 2 ^ 24 = omega (arith, many, e) in
    let small' : m * q < 2 ^ 24 = omega (arith, small, even) in
    let room : HasRoom binary32 (pixel_size c) build n =
      rw even (even-HasRoom c build q m pos few small' (rw even at e) reserves) in
    let all : first_of n m m ≡ n =
      ap (λ t. first_of t m m) even
      ∙ first_of-whole q m m small' few pos (omega arith)
      ∙ sym even in
    rw all at
      (up_to c build image out dims flags old m room count pixels fits e small (omega (arith, all)))
