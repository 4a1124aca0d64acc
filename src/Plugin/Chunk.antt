-- ===== src/Plugin/Chunk.antt =====
-- One chunk of pixels in pression/compressor/compressorRLE.ipp: the inner `_compress`, and the
-- body of `_decompress`, over four channels at once.
pub mod Split
pub mod RoundTrip
use pression.Base.{ℕ, zero, suc, List, [], ◌∷◌, Option, none, some}
use pression.Rle.{
  ◌>>=◌, Channel, start_channel, compress_token, write_output, Reader, start_reader, read,
}
use pression.Plugin.Types.{Quad, Triple, Swizzle4, Swizzle3, Format, use_alpha, no_alpha}

pub record Channels : Type 0 where
  pub one : Channel
  pub two : Channel
  pub three : Channel
  pub four : Channel

-- The four results of a chunk, as components.
pub record Streams : Type 0 where
  pub one : List ℕ
  pub two : List ℕ
  pub three : List ℕ
  pub four : List ℕ

pub record Readers : Type 0 where
  pub one : Reader
  pub two : Reader
  pub three : Reader
  pub four : Reader

-- The variables at the first pixel. Without alpha the fourth channel keeps the 0 that it was
-- declared with.
unfoldable pub first_pixel : Format → ℕ → Channels
first_pixel (use_alpha s) pixel =
    let q = s.split pixel in
    record {
      one = start_channel q.one;
      two = start_channel q.two;
      three = start_channel q.three;
      four = start_channel q.four;
    }
first_pixel (no_alpha s) pixel =
    let t = s.split pixel in
    record {
      one = start_channel t.one;
      two = start_channel t.two;
      three = start_channel t.three;
      four = start_channel 0;
    }

module _ (marker limit : ℕ) where
  -- The body of the loop over the pixels.
  unfoldable pub compress_pixel : Format → ℕ → Channels → Channels
  compress_pixel (use_alpha s) pixel ch =
      let q = s.split pixel in
      record {
        one = compress_token marker limit q.one ch.one;
        two = compress_token marker limit q.two ch.two;
        three = compress_token marker limit q.three ch.three;
        four = compress_token marker limit q.four ch.four;
      }
  compress_pixel (no_alpha s) pixel ch =
      let t = s.split pixel in
      record {
        one = compress_token marker limit t.one ch.one;
        two = compress_token marker limit t.two ch.two;
        three = compress_token marker limit t.three ch.three;
        four = ch.four;
      }

  unfoldable pub compress_loop : Format → List ℕ → Channels → Channels
  unfolding compress_pixel
  compress_loop format [] ch = ch
  compress_loop format (pixel ∷ pixels) ch =
      compress_loop format pixels (compress_pixel format pixel ch)

  unfoldable pub write_outputs : Channels → Streams
  write_outputs ch = record {
    one = write_output marker ch.one;
    two = write_output marker ch.two;
    three = write_output marker ch.three;
    four = write_output marker ch.four;
  }

  -- The inner `_compress`; an empty chunk has empty results.
  unfoldable pub compress_chunk : Format → List ℕ → Streams
  unfolding compress_loop write_outputs first_pixel
  compress_chunk format [] = record { one = []; two = []; three = []; four = [] }
  compress_chunk format (pixel ∷ pixels) =
      write_outputs (compress_loop format pixels (first_pixel format pixel))

  -- The body of the loop of `_decompress`: one read of each channel in use, and the pixel that is
  -- stored.
  unfoldable pub read_pixel : Format → Readers → Option (ℕ × Readers)
  read_pixel (use_alpha s) rs = do
    a ← read marker limit rs.one
    b ← read marker limit rs.two
    c ← read marker limit rs.three
    d ← read marker limit rs.four
    some (
      s.join (record { one = a.token; two = b.token; three = c.token; four = d.token }),
      record { one = a; two = b; three = c; four = d },
    )
  read_pixel (no_alpha s) rs = do
    a ← read marker limit rs.one
    b ← read marker limit rs.two
    c ← read marker limit rs.three
    some (
      s.join (record { one = a.token; two = b.token; three = c.token }),
      record { one = a; two = b; three = c; four = rs.four },
    )

  -- `chunkSize` rounds.
  unfoldable pub read_pixels : Format → ℕ → Readers → Option (List ℕ × Readers)
  unfolding read_pixel
  read_pixels format zero rs = some ([], rs)
  read_pixels format (suc n) rs = do
    (p, rs') ← read_pixel format rs
    (ps, rest) ← read_pixels format n rs'
    some (p ∷ ps, rest)

-- The four pointers at the start of their inputs.
abbrev pub start_readers : Streams → Readers
start_readers s = record {
  one = start_reader s.one;
  two = start_reader s.two;
  three = start_reader s.three;
  four = start_reader s.four;
}
