-- ===== src/Plugin/TurboJpeg/Alpha.antt =====
-- What becomes of alpha.
use pression.Base.{
  ℕ, zero, suc, ◌*◌, ◌≤◌, ◌<◌, ◌≡◌, refl, ap, ◌∙◌, arith, true, List, [], ◌∷◌, ◌++◌, length, some,
  u32, u64,
}
use pression.Base.Bits.{bit_and_mask}
use pression.Rle.{◌>>=◌}
use pression.Plugin.Dims.{Dims}
use pression.Data.Word.{AllBelow, le_word, le_bytes}
use pression.Plugin.TurboJpeg.{
  Library, Compressor, extract_alpha, with_alpha, add_alpha, uses_alpha, first_input, second_input,
  compress_colours, compress, get_results, finish_colours, decompress,
}

-- The colours of the second image with the alpha of the first, for `n` pixels.
abbrev pub merge_alpha : ℕ → List ℕ → List ℕ → List ℕ
merge_alpha (suc n) (r ∷ g ∷ b ∷ a ∷ image) (r' ∷ g' ∷ b' ∷ a' ∷ decoded) =
    r' ∷ g' ∷ b' ∷ a ∷ merge_alpha n image decoded
merge_alpha n image decoded = decoded

pixel_bytes :
    (r g b a alpha : ℕ)
    → r < 256
    → g < 256
    → b < 256
    → alpha < 256
    → le_bytes 4 (with_alpha (le_word (r ∷ g ∷ b ∷ a ∷ [])) alpha) ≡ r ∷ g ∷ b ∷ alpha ∷ []
unfolding le_bytes with_alpha le_word
pixel_bytes r g b a alpha hr hg hb h =
    ground (arith, bit_and_mask 24 (le_word (r ∷ g ∷ b ∷ a ∷ [])))

-- One round of `_addAlpha`.
add_alpha_step :
    (alpha r g b a n : ℕ) (alphas out rest : List ℕ)
    → add_alpha n alphas out ≡ some rest
    → add_alpha (suc n) (alpha ∷ alphas) (r ∷ g ∷ b ∷ a ∷ out)
      ≡ some (le_bytes 4 (with_alpha (le_word (r ∷ g ∷ b ∷ a ∷ [])) alpha) ++ rest)
add_alpha_step alpha r g b a n alphas out rest e =
    unfold add_alpha in
    ap
      (λ t.
        t >>= λ rest. some (le_bytes 4 (with_alpha (le_word (r ∷ g ∷ b ∷ a ∷ [])) alpha) ++ rest))
      e

add_pixel :
    (alpha r g b a n : ℕ) (alphas out rest : List ℕ)
    → add_alpha n alphas out ≡ some rest
    → le_bytes 4 (with_alpha (le_word (r ∷ g ∷ b ∷ a ∷ [])) alpha) ≡ r ∷ g ∷ b ∷ alpha ∷ []
    → add_alpha (suc n) (alpha ∷ alphas) (r ∷ g ∷ b ∷ a ∷ out) ≡ some (r ∷ g ∷ b ∷ alpha ∷ rest)
add_pixel alpha r g b a n alphas out rest e f =
    add_alpha_step alpha r g b a n alphas out rest e ∙ ap (λ t. some (t ++ rest)) f

extract_step :
    (n r g b a : ℕ) (image alphas : List ℕ)
    → extract_alpha n image ≡ some alphas
    → extract_alpha (suc n) (r ∷ g ∷ b ∷ a ∷ image) ≡ some (a ∷ alphas)
unfolding extract_alpha
extract_step n r g b a image alphas e = rw e refl

add_alpha-extract_alpha :
    (n : ℕ) (image decoded : List ℕ)
    → n * 4 ≤ length image
    → n * 4 ≤ length decoded
    → AllBelow 256 image
    → AllBelow 256 decoded
    → (alphas : List ℕ) × (extract_alpha n image ≡ some alphas)
      × (add_alpha n alphas decoded ≡ some (merge_alpha n image decoded))
add_alpha-extract_alpha zero image decoded p q u v =
    ([], unfold extract_alpha in refl, unfold add_alpha in refl)
add_alpha-extract_alpha (suc n) (r ∷ g ∷ b ∷ a ∷ image) (r' ∷ g' ∷ b' ∷ a' ∷ decoded) p q u v =
    let (alphas, e, f) =
      add_alpha-extract_alpha n image decoded (omega arith) (omega arith) u.1.1.1.1 v.1.1.1.1 in
    let pixel = pixel_bytes r' g' b' a' a v.0 v.1.0 v.1.1.0 u.1.1.1.0 in
    (
      a ∷ alphas,
      extract_step n r g b a image alphas e,
      add_pixel a r' g' b' a' n alphas decoded (merge_alpha n image decoded) f pixel,
    )
add_alpha-extract_alpha (suc n) (r ∷ g ∷ b ∷ a ∷ image) (r' ∷ g' ∷ b' ∷ []) p q u v =
    absurd (omega arith)
add_alpha-extract_alpha (suc n) (r ∷ g ∷ b ∷ a ∷ image) (r' ∷ g' ∷ []) p q u v =
    absurd (omega arith)
add_alpha-extract_alpha (suc n) (r ∷ g ∷ b ∷ a ∷ image) (r' ∷ []) p q u v = absurd (omega arith)
add_alpha-extract_alpha (suc n) (r ∷ g ∷ b ∷ a ∷ image) [] p q u v = absurd (omega arith)
add_alpha-extract_alpha (suc n) (r ∷ g ∷ b ∷ []) decoded p q u v = absurd (omega arith)
add_alpha-extract_alpha (suc n) (r ∷ g ∷ []) decoded p q u v = absurd (omega arith)
add_alpha-extract_alpha (suc n) (r ∷ []) decoded p q u v = absurd (omega arith)
add_alpha-extract_alpha (suc n) [] decoded p q u v = absurd (omega arith)

-- If the engine's pixels have four bytes and alpha is used: for an image of `w * h` pixels, whatever JPEG data the
-- library makes of it, compressing succeeds with two results; and if the library then fills the output, which has room
-- for the image, decompressing these results leaves there the colours that the library decoded, and the alpha of the
-- image unchanged; what the library left behind the image stays.
pub decompress-merge_alpha :
    (lib : Library) (c d : Compressor) (image out jpeg decoded : List ℕ) (dims : Dims) (flags : ℕ)
    → c.token_size ≡ 4
    → d.token_size ≡ 4
    → uses_alpha flags ≡ true
    → let n = u64 (dims.h * dims.w) in
      length image ≡ n * 4
      → n * 4 ≤ length decoded
      → AllBelow 256 image
      → AllBelow 256 decoded
      → (compress_colours lib image dims c).colours ≡ jpeg
      → lib.tj_decompress jpeg out
          (u32 dims.w)
          (u32 (u64 (dims.w * 4)))
          (u32 dims.h)
          4
          (u32 d.flags)
        ≡ (true, decoded)
      → (after : Compressor) × (compress lib image dims flags c ≡ some after)
        × (length (get_results after) ≡ 2)
        × (decompress lib (get_results after) out dims flags d
            ≡ some (merge_alpha n image decoded, record d { decoder = true }))
decompress-merge_alpha lib c d image out jpeg decoded dims flags four four' used fits room bytes
      bytes' coded filled =
    let n = u64 (dims.h * dims.w) in
    let (alphas, e, f) =
      add_alpha-extract_alpha n image decoded (omega (arith, fits)) room bytes bytes' in
    let after = compress_colours lib image dims (record c { alphas = alphas; n_results = 2 }) in
    (
      after,
      unfold compress in rw (used, four, e) refl,
      unfold get_results compress_colours in refl,
      unfold get_results compress_colours decompress finish_colours first_input second_input in
          rw (coded, four', filled, used, f) refl,
    )
