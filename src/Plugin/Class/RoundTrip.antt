-- ===== src/Plugin/Class/RoundTrip.antt =====
-- What each compressor class keeps of an image.
use pression.Base.{
  ℕ, zero, suc, ◌+◌, ◌*◌, ◌/◌, ◌%◌, ◌^◌, ◌≤◌, ◌<◌, ◌≡◌, refl, sym, ap, ap₂, ◌∙◌, arith, Bool, true,
  false, not, List, [], ◌∷◌, ◌++◌, map, length, take, drop, some, u64, ◌&&&◌, ◌|||◌,
}
use pression.Base.Buffer.{take_all}
use pression.Plugin.Types.{rejoin}
use pression.Plugin.Float.{Float32, IsExact}
use pression.Plugin.Codec.{
  Build, serial, chunk_size, max_chunk_size, count_chunks, Results, decompress,
}
use pression.Plugin.Codec.Serial.{NoneEmpty, results_of-NoneEmpty, serial-results}
use pression.Plugin.Codec.Stored.{HasRoom, Reserves}
use pression.Plugin.Codec.RoundTrip.{
  IsDivision, decompress-compress, serial_IsDivision, serial_chunk_size,
}
use pression.Plugin.Dims.{Dims, has_flag, count_pixels, ignore_alpha_flag}
use pression.Plugin.Class.{
  Class, rle4b, diff_rle4b, rle_yuv, diff_rle_yuv, rle565, rle10a2, rle4hf, diff_rle4hf, pixel_size,
  compress_pixels, compress_dims, decompress_dims,
}
use pression.Plugin.Swizzle.Rle4B.Inverse.{
  no_deswizzle4-no_swizzle4, no_deswizzle3-no_swizzle3, deswizzle_uint32-swizzle_uint32,
  deswizzle_uint24-swizzle_uint24,
}
use pression.Plugin.Swizzle.Rle565.Loss as Loss565
use pression.Plugin.Swizzle.Rle10A2.Inverse as Inverse10A2
use pression.Plugin.Swizzle.Rle4Hf.Inverse as Inverse4HF
use pression.Plugin.Swizzle.RleYuv.{
  no_swizzle4, no_swizzle3, no_deswizzle4, no_deswizzle3, swizzle_uint32, deswizzle_uint32,
  swizzle_uint24, deswizzle_uint24,
}
use pression.Plugin.Class.Formats.{
  class_marker, class_limit, class_format, two-le-limit, compress_pixels-format,
  decompress_dims-format,
}

-- What a class keeps of a pixel, with or without alpha.
unfoldable pub kept : Class → Bool → ℕ → ℕ
kept rle10a2 alpha p = p
kept rle565 true p = (p &&& 0x80f8f8f8) ||| 0x3f040404
kept rle565 false p = (p &&& 0xf8fcf8) ||| 0x020202
kept rle4hf true p = p
kept rle4hf false p = p % 2 ^ 48
kept diff_rle4hf true p = p
kept diff_rle4hf false p = p % 2 ^ 48
kept rle4b true p = p
kept rle4b false p = p % 2 ^ 24
kept diff_rle4b true p = p
kept diff_rle4b false p = p % 2 ^ 24
kept rle_yuv true p = p
kept rle_yuv false p = p % 2 ^ 24
kept diff_rle_yuv true p = p
kept diff_rle_yuv false p = p % 2 ^ 24

-- Every pixel fits the pixel type.
abbrev pub ArePixels : ℕ → List ℕ → Type 0
ArePixels size [] = Unit {0}
ArePixels size (p ∷ ps) = (p < 2 ^ (8 * size)) × ArePixels size ps

map_agree :
    (size : ℕ) (f g : ℕ → ℕ) (ps : List ℕ)
    → ((p : ℕ) → p < 2 ^ (8 * size) → f p ≡ g p)
    → ArePixels size ps
    → map f ps ≡ map g ps
map_agree size f g [] h a = refl
map_agree size f g (p ∷ ps) h a = ap₂ ◌∷◌ (h p a.0) (map_agree size f g ps h a.1)

ArePixels-take :
    (size n : ℕ) (image : List ℕ) → ArePixels size image → ArePixels size (take n image)
ArePixels-take size zero image a = tt
ArePixels-take size (suc n) [] a = tt
ArePixels-take size (suc n) (p ∷ image) a = (a.0, ArePixels-take size n image a.1)

-- What is kept of a pixel is what its components are joined to.
rejoin-kept :
    (c : Class) (alpha : Bool) (p : ℕ)
    → p < 2 ^ (8 * pixel_size c)
    → rejoin (class_format c alpha) p ≡ kept c alpha p
unfolding kept no_swizzle4 no_swizzle3 no_deswizzle4 no_deswizzle3 swizzle_uint32 deswizzle_uint32
    swizzle_uint24 deswizzle_uint24
rejoin-kept rle4b true p h = no_deswizzle4-no_swizzle4 p h
rejoin-kept rle4b false p h = no_deswizzle3-no_swizzle3 p h
rejoin-kept diff_rle4b true p h = deswizzle_uint32-swizzle_uint32 p h
rejoin-kept diff_rle4b false p h = deswizzle_uint24-swizzle_uint24 p h
rejoin-kept rle_yuv true p h = no_deswizzle4-no_swizzle4 p h
rejoin-kept rle_yuv false p h = no_deswizzle3-no_swizzle3 p h
rejoin-kept diff_rle_yuv true p h = deswizzle_uint32-swizzle_uint32 p h
rejoin-kept diff_rle_yuv false p h = deswizzle_uint24-swizzle_uint24 p h
rejoin-kept rle565 true p h = Loss565.deswizzle_uint32-kept4 p h
rejoin-kept rle565 false p h = Loss565.deswizzle_uint24-kept3 p h
rejoin-kept rle10a2 alpha p h = Inverse10A2.deswizzle-swizzle p h
rejoin-kept rle4hf true p h = Inverse4HF.no_deswizzle4-no_swizzle4 p h
rejoin-kept rle4hf false p h = Inverse4HF.no_deswizzle3-no_swizzle3 p h
rejoin-kept diff_rle4hf true p h = Inverse4HF.deswizzle4-swizzle4 p h
rejoin-kept diff_rle4hf false p h = Inverse4HF.deswizzle3-swizzle3 p h

-- Wherever the single-precision arithmetic divides the pixels up to a number of them into chunks, each class
-- compresses every image of pixels of its type to as many results as it counts, and decompressing them with the same
-- dimensions and flags writes what the class keeps of each of those pixels, and changes nothing behind them.
pub decompress_dims-compress_dims :
    (c : Class) (fl : Float32) (build : Build) (image out : List ℕ) (dims : Dims) (flags : ℕ)
    (old : Results) (reach : ℕ)
    → let n = length image in
      let n_chunks = count_chunks build.processors 4 (u64 (n * pixel_size c)) in
      HasRoom fl (pixel_size c) build n
      → reach ≤ n
      → IsDivision fl n n_chunks reach (n_chunks / 4)
      → count_pixels dims flags ≡ n
      → ArePixels (pixel_size c) image
      → reach ≤ length out
      → (new : Results) × (compress_dims c fl build image dims flags old ≡ some new)
        × (new.n_results ≤ length new.buffers)
        × (new.n_results ≡ n_chunks)
        × (decompress_dims c fl (take new.n_results new.buffers) out dims flags
            ≡ some (
                map (kept c (not (has_flag flags ignore_alpha_flag))) (take reach image)
                ++ drop reach out))
unfolding compress_dims
decompress_dims-compress_dims c fl build image out dims flags old reach room within div count pixels
      fits =
    let alpha = not (has_flag flags ignore_alpha_flag) in
    let format = class_format c alpha in
    let front = take reach image in
    let (new, p, enough, counted, q) =
      decompress-compress fl (class_marker c) (class_limit c) (pixel_size c) format build image out
        old reach (two-le-limit c) room within div fits in
    let inputs = take new.n_results new.buffers in
    let all_kept : map (rejoin format) front ≡ map (kept c alpha) front =
      map_agree (pixel_size c) (rejoin format) (kept c alpha) front (rejoin-kept c alpha)
        (ArePixels-take (pixel_size c) reach image pixels) in
    (
      new,
      ap (λ n. compress_pixels c fl build image n alpha old) count
          ∙ compress_pixels-format c fl build image (length image) alpha old
          ∙ p,
      enough,
      counted,
      decompress_dims-format c fl inputs out dims flags
          ∙ ap
              (λ n.
                decompress fl (class_marker c) (class_limit c) (pixel_size c) format n inputs out)
              count
          ∙ q
          ∙ ap (λ t. some (t ++ drop reach out)) all_kept,
    )

serial-HasRoom :
    (c : Class) (fl : Float32) (capacity : ℕ → List ℕ → ℕ) (n : ℕ)
    → Reserves capacity
    → IsExact fl
    → n ≤ 2 ^ 24
    → HasRoom fl (pixel_size c) (serial capacity) n
unfolding count_chunks max_chunk_size
serial-HasRoom c fl capacity n reserves exact small (suc i) h old = absurd (omega (arith, h))
serial-HasRoom c fl capacity n reserves exact small zero h old =
    room c (serial_chunk_size fl n exact small)
  where
    room :
        (c : Class)
        → chunk_size fl n 4 0 ≡ n
        → (2 * chunk_size fl n 4 0 + 1) * (pixel_size c / 4)
          ≤ capacity ((u64 (n * pixel_size c) / 4 + 1) * 2) old
    room rle4hf e = omega (arith, e, small, reserves ((u64 (n * 8) / 4 + 1) * 2) old)
    room diff_rle4hf e = omega (arith, e, small, reserves ((u64 (n * 8) / 4 + 1) * 2) old)
    room _ e = omega (arith, e, small, reserves ((u64 (n * 4) / 4 + 1) * 2) old)

-- In a serial build, with arithmetic that is exact for the one chunk, each class compresses every image
-- of at most 2 ^ 24 pixels of its type to as many results as it counts, and decompressing them with the same dimensions and flags
-- writes what the class keeps of each pixel, and changes nothing behind the image.
pub serial_round_trip :
    (c : Class) (fl : Float32) (capacity : ℕ → List ℕ → ℕ) (image out : List ℕ) (dims : Dims)
    (flags : ℕ) (old : Results)
    → Reserves capacity
    → IsExact fl
    → length image ≤ 2 ^ 24
    → count_pixels dims flags ≡ length image
    → ArePixels (pixel_size c) image
    → length image ≤ length out
    → (new : Results) × (compress_dims c fl (serial capacity) image dims flags old ≡ some new)
      × (new.n_results ≤ length new.buffers)
      × (new.n_results ≡ 4)
      × (decompress_dims c fl (take new.n_results new.buffers) out dims flags
          ≡ some (
              map (kept c (not (has_flag flags ignore_alpha_flag))) image
              ++ drop (length image) out))
unfolding count_chunks
serial_round_trip c fl capacity image out dims flags old reserves exact small count pixels fits =
    rw (take_all (length image) image refl) at (
      decompress_dims-compress_dims c fl (serial capacity) image out dims flags old (length image)
        (serial-HasRoom c fl capacity (length image) reserves exact small) (omega arith)
        (serial_IsDivision fl (length image) exact small) count pixels fits)

-- None of the results of an image that is not empty is.
pub serial-NoneEmpty :
    (c : Class) (fl : Float32) (capacity : ℕ → List ℕ → ℕ) (image : List ℕ) (dims : Dims)
    (flags : ℕ) (old new : Results)
    → IsExact fl
    → 0 < length image
    → length image ≤ 2 ^ 24
    → count_pixels dims flags ≡ length image
    → compress_dims c fl (serial capacity) image dims flags old ≡ some new
    → NoneEmpty (take 4 new.buffers)
unfolding compress_dims
serial-NoneEmpty c fl capacity image dims flags old new exact pos small count h =
    let alpha = not (has_flag flags ignore_alpha_flag) in
    let format = class_format c alpha in
    let compressed =
      sym (
        ap (λ n. compress_pixels c fl (serial capacity) image n alpha old) count
        ∙ compress_pixels-format c fl (serial capacity) image (length image) alpha old)
      ∙ h in
    rw
      (serial-results fl (class_marker c) (class_limit c) (pixel_size c) format capacity image old
        new exact small compressed)
      (results_of-NoneEmpty (class_marker c) (class_limit c) format image
        (omega (arith, two-le-limit c)) pos)
