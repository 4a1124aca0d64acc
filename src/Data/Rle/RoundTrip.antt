-- ===== src/Data/Rle/RoundTrip.antt =====
-- Decompressing a run-length coded chunk gives back its bytes.
use native.Mathlib.Nat.{mul-div_cancel}
use pression.Base.{
  ℕ, zero, suc, ◌+◌, ◌*◌, ◌/◌, ◌^◌, ◌≤◌, ◌<◌, ◌≡◌, refl, sym, ap, ◌∙◌, arith, true, not, ◌&&◌, ◌==◌,
  Bool-cases, inl, inr, List, [], ◌∷◌, append-nil, length, some,
}
use pression.Base.Bits.{bit_and_mask}
use pression.Rle.{start_reader, compress_channel, read_channel}
use pression.Rle.Runs.{run, runs, compress_channel-runs}
use pression.Rle.RoundTrip.{read_channel-compress_channel}
use pression.Data.Word.{
  words_at, bytes_of, AllBelow, AllBelow-append, length-words_at, length-bytes_of,
  words_at-bytes_of, bytes_of-words_at, words_at-AllBelow,
}
use pression.Data.Rle.{
  rle_marker, limit, compress_words, decompress_words, compress_chunk, decompress_chunk, rle_codec,
}
use pression.Data.Compressor.Parts.{IsLossless}

module _ (marker limit : ℕ) (m : marker ≤ limit) where
  run-AllBelow :
      (token n : ℕ) → token ≤ limit → n ≤ limit → AllBelow (suc limit) (run marker token n)
  unfolding run
  run-AllBelow token zero h k = ground arith
  run-AllBelow token (suc zero) h k = ground arith
  run-AllBelow token (suc (suc zero)) h k = ground arith
  run-AllBelow token (suc (suc (suc n))) h k = ground arith

  runs-AllBelow :
      (xs : List ℕ) (last same : ℕ)
      → last ≤ limit
      → same ≤ limit
      → 1 ≤ limit
      → AllBelow (suc limit) xs
      → AllBelow (suc limit) (runs marker limit last same xs)
  unfolding runs
  runs-AllBelow [] last same h k one a = run-AllBelow last same h k
  runs-AllBelow (x ∷ xs) last same h k one a =
      elim (Bool-cases (x == last && not (same == limit))) [
        | inl longer ↦ rw longer (runs-AllBelow xs last (same + 1) h (ground arith) one a.1)
        | inr next ↦ rw next (
            AllBelow-append (suc limit) (run marker last same) (runs marker limit x 1 xs)
              (run-AllBelow last same h k) (runs-AllBelow xs x 1 (omega (arith, a.0)) one one a.1))
      ]

  -- Everything that is stored fits the component type.
  compress_channel-AllBelow :
      (xs : List ℕ)
      → 1 ≤ limit
      → AllBelow (suc limit) xs
      → AllBelow (suc limit) (compress_channel marker limit xs)
  unfolding compress_channel
  compress_channel-AllBelow [] one a = tt
  compress_channel-AllBelow (x ∷ xs) one a =
      rw (compress_channel-runs marker limit x xs one)
        (runs-AllBelow xs x 1 (omega (arith, a.0)) one one a.1)

AllBelow-bound : {a b : ℕ} → a ≡ b → (xs : List ℕ) → AllBelow a xs → AllBelow b xs
AllBelow-bound e [] p = tt
AllBelow-bound e (x ∷ xs) p = (omega (arith, e, p.0), AllBelow-bound e xs p.1)

read_coded :
    (limit n : ℕ) (words : List ℕ)
    → 0 < limit
    → length words ≡ n
    → (t : ℕ) × (read_channel rle_marker limit n
          (start_reader (compress_channel rle_marker limit words))
        ≡ some (words, record { token = t; left = 0; input = [] }))
read_coded limit n words pos e =
    let (t, p) = read_channel-compress_channel rle_marker limit words [] pos in
    (t, rw (append-nil, e) at p)

-- For words of one width.
words_round_trip :
    (width n : ℕ) (bytes : List ℕ)
    → 0 < width
    → 256 ≤ 256 ^ width
    → AllBelow 256 bytes
    → length bytes ≡ n * width
    → decompress_words width (compress_words width bytes n) n ≡ some bytes
unfolding compress_words decompress_words
words_round_trip width zero [] pos wide a e = unfold read_channel bytes_of in refl
words_round_trip width zero (b ∷ bytes) pos wide a e = absurd (omega arith)
words_round_trip width (suc n) bytes pos wide a e =
    let (t, q) =
      read_coded (limit width) (suc n) words (omega (arith, wide))
        (length-words_at width (suc n) bytes) in
    ground (arith, again, q, bytes_of-words_at width (suc n) bytes a e)
  where
    words : List ℕ
    words = words_at width (suc n) bytes

    coded : List ℕ
    coded = compress_channel rle_marker (limit width) words

    exact : suc (limit width) ≡ 256 ^ width
    exact = omega (arith, wide)

    fits : AllBelow (256 ^ width) coded
    fits = AllBelow-bound exact coded (
        compress_channel-AllBelow rle_marker (limit width) (omega (arith, wide)) words
          (omega (arith, wide))
          (AllBelow-bound (sym exact) words (words_at-AllBelow width (suc n) bytes a e)))

    count : length (bytes_of width coded) / width ≡ length coded
    count =
        ap (λ (t : ℕ). t / width) (length-bytes_of width coded) ∙ mul-div_cancel (length coded) pos

    again : words_at width (length (bytes_of width coded) / width) (bytes_of width coded) ≡ coded
    again =
        ap (λ t. words_at width t (bytes_of width coded)) count ∙ words_at-bytes_of width coded fits

-- The four widths that are tried.
chunk_round_trip :
    (bytes : List ℕ)
    → AllBelow 256 bytes
    → decompress_chunk true (compress_chunk true bytes (length bytes) []) (length bytes)
      ≡ some bytes
unfolding compress_chunk decompress_chunk
chunk_round_trip bytes a = ground (
  arith,
  bit_and_mask 3 (length bytes),
  bit_and_mask 2 (length bytes),
  bit_and_mask 1 (length bytes),
  words_round_trip 8 (length bytes / 8) bytes,
  words_round_trip 4 (length bytes / 4) bytes,
  words_round_trip 2 (length bytes / 2) bytes,
  words_round_trip 1 (length bytes) bytes,
)

-- Once registered, the run-length coding is a lossless codec: what `compressChunk` makes of any bytes, for
-- each of the four word widths that their number may choose, `decompressChunk` turns back into the bytes.
-- The chunk size is above 0.
pub rle_codec-IsLossless :
    (chunk_size : ℕ) → 0 < chunk_size → IsLossless (rle_codec true chunk_size)
unfolding rle_codec
rle_codec-IsLossless chunk_size pos = record {
  given_back = λ bytes old a. same_result bytes old ∙ chunk_round_trip bytes a;
  chunk_pos = pos;
}
  where
    same_result :
        (bytes old : List ℕ)
        → decompress_chunk true (compress_chunk true bytes (length bytes) old) (length bytes)
          ≡ decompress_chunk true (compress_chunk true bytes (length bytes) []) (length bytes)
    same_result bytes old = unfold compress_chunk in refl
