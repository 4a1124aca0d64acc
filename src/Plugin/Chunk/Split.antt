-- ===== src/Plugin/Chunk/Split.antt =====
-- The channels of a chunk are compressed independently of one another.
use pression.Base.{ℕ, ◌≡◌, refl, List, [], ◌∷◌, map}
use pression.Rle.{compress_rest, compress_channel}
use pression.Plugin.Types.{Swizzle4, Swizzle3, Format, use_alpha, no_alpha}
use pression.Plugin.Chunk.{
  Channels, Streams, first_pixel, compress_pixel, compress_loop, compress_chunk,
}

module _ (marker limit : ℕ) where
  -- What the components of the pixels are compressed to, one by one.
  abbrev pub apart : Format → List ℕ → Streams
  apart (use_alpha s) pixels = record {
    one = compress_channel marker limit (map (λ p. (s.split p).one) pixels);
    two = compress_channel marker limit (map (λ p. (s.split p).two) pixels);
    three = compress_channel marker limit (map (λ p. (s.split p).three) pixels);
    four = compress_channel marker limit (map (λ p. (s.split p).four) pixels);
  }
  apart (no_alpha s) [] = record { one = []; two = []; three = []; four = [] }
  apart (no_alpha s) (p ∷ ps) = record {
    one = compress_channel marker limit (map (λ p. (s.split p).one) (p ∷ ps));
    two = compress_channel marker limit (map (λ p. (s.split p).two) (p ∷ ps));
    three = compress_channel marker limit (map (λ p. (s.split p).three) (p ∷ ps));
    four = compress_channel marker limit (0 ∷ []);
  }

  loop4 :
      (s : Swizzle4) (ps : List ℕ) (ch : Channels)
      → compress_loop marker limit (use_alpha s) ps ch ≡ record {
        one = compress_rest marker limit (map (λ p. (s.split p).one) ps) ch.one;
        two = compress_rest marker limit (map (λ p. (s.split p).two) ps) ch.two;
        three = compress_rest marker limit (map (λ p. (s.split p).three) ps) ch.three;
        four = compress_rest marker limit (map (λ p. (s.split p).four) ps) ch.four;
      }
  unfolding compress_loop compress_rest
  loop4 s [] ch = refl
  loop4 s (p ∷ ps) ch = loop4 s ps (compress_pixel marker limit (use_alpha s) p ch)

  loop3 :
      (s : Swizzle3) (ps : List ℕ) (ch : Channels)
      → compress_loop marker limit (no_alpha s) ps ch ≡ record {
        one = compress_rest marker limit (map (λ p. (s.split p).one) ps) ch.one;
        two = compress_rest marker limit (map (λ p. (s.split p).two) ps) ch.two;
        three = compress_rest marker limit (map (λ p. (s.split p).three) ps) ch.three;
        four = ch.four;
      }
  unfolding compress_loop compress_rest
  loop3 s [] ch = refl
  loop3 s (p ∷ ps) ch = loop3 s ps (compress_pixel marker limit (no_alpha s) p ch)

  -- A chunk's results are those of its channels, each compressed by itself. Without alpha the
  -- fourth result of a chunk that is not empty is that of a single component 0.
  pub compress_chunk-apart :
      (format : Format) (pixels : List ℕ)
      → compress_chunk marker limit format pixels ≡ apart format pixels
  unfolding compress_chunk compress_channel
  compress_chunk-apart (use_alpha s) [] = refl
  compress_chunk-apart (use_alpha s) (p ∷ ps) = rw (loop4 s ps (first_pixel (use_alpha s) p)) refl
  compress_chunk-apart (no_alpha s) [] = refl
  compress_chunk-apart (no_alpha s) (p ∷ ps) = rw (loop3 s ps (first_pixel (no_alpha s) p)) refl
