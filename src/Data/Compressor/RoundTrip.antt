-- ===== src/Data/Compressor/RoundTrip.antt =====
-- Decompressing what a lossless compressor made of data gives back the data.
use pression.Base.{
  ℕ, suc, ◌+◌, ◌-◌, ◌*◌, ◌^◌, ◌≤◌, ◌<◌, ◌≡◌, refl, ap, ◌∙◌, arith, Bool, true, false, ◌||◌, List,
  [], ◌∷◌, ◌++◌, append-nil, length, length-append, length-take, length-replicate, take, drop,
  replicate, some,
}
use pression.Base.Buffer.{slice, slice_behind, blit_behind, take_all, drop_all}
use pression.Data.Word.{AllBelow}
use pression.Data.Compressor.{
  Codec, State, finished, add_totals, resize, count_rounds, part_start, part_size, count_parts,
  compress_whole, compress_results, compress, decompress_parts, decompress_inputs, decompress,
}
use pression.Data.Compressor.Count.{enough, tight, consistent}
use pression.Data.Compressor.Parts.{
  IsLossless, AreStored, IsLosslessOn, store_chunk-stored, IsLossless-IsLosslessOn,
  part_start-exact, part_size-exact, parts_round_trip,
}

length-resize : (n : ℕ) (results : List (List ℕ)) → length (resize n results) ≡ n
unfolding resize
length-resize n results = omega (
  arith,
  length-append (take n results) (replicate (n - length results) []),
  length-take n results,
  length-replicate {A = List ℕ} (n - length results) [],
)

resize_one : (results : List (List ℕ)) → (old : List ℕ) × (resize 1 results ≡ old ∷ [])
unfolding resize
resize_one [] = ([], refl)
resize_one (r ∷ results) = (r, rw none_missing refl)
  where
    none_missing : 1 - suc (length results) ≡ 0
    none_missing = omega arith

count_rounds-exact : (n : ℕ) → n < 2 ^ 31 → count_rounds n ≡ n
unfolding count_rounds
count_rounds-exact n h = ground arith

module _ (accepts : ℕ → Bool) (capacity : ℕ → List ℕ → ℕ) (codec : Codec)
    (lossless : IsLosslessOn accepts capacity codec) (size : ℕ)
    (small : size + codec.get_chunk_size < 2 ^ 64) where
  abbrev chunk : ℕ
  chunk = codec.get_chunk_size

  abbrev n_chunks : ℕ
  n_chunks = count_parts codec size

  -- With every chunk decompressed by the loop, `decompress` succeeds however many there are.
  decompress-parts :
      (inputs : List (List ℕ)) (out result : List ℕ) (st : State)
      → length inputs ≡ n_chunks
      → n_chunks < 2 ^ 31
      → decompress_parts codec size 0 inputs out ≡ some result
      → (new : State) × (decompress codec inputs out size st ≡ finished new result)
  unfolding decompress decompress_inputs
  decompress-parts [] out result st e h p = (st, unfold decompress_parts in ground (arith, p))
  decompress-parts (input ∷ []) out result st e h p =
      (add_totals size (input ∷ []) st, unfold decompress_parts in ground (arith, first, whole, p))
    where
      covered : size ≤ chunk
      covered = omega (arith, enough codec lossless.chunk_pos size small, ap (λ k. k * chunk) e)

      inside : 0 * chunk < size
      inside = omega (arith, tight codec lossless.chunk_pos size small, ap (λ k. k * chunk) e)

      first : part_start chunk 0 ≡ 0
      first = omega (arith, part_start-exact chunk size small 0 inside)

      whole : part_size chunk size 0 ≡ size
      whole = omega (arith, part_size-exact chunk size small 0 inside, covered)
  decompress-parts (input ∷ next ∷ inputs) out result st e h p = (
    add_totals size (input ∷ next ∷ inputs) st,
    ground (
      arith,
      consistent codec lossless.chunk_pos size small,
      count_rounds-exact n_chunks h,
      take_all n_chunks (input ∷ next ∷ inputs) e,
      p,
    ),
  )

-- The same with a codec that is lossless for the sizes of chunks that it accepts. Without OpenMP, where there is one
-- chunk, the size of the data is accepted.
pub decompress-compress_accepted :
    (accepts : ℕ → Bool) (capacity : ℕ → List ℕ → ℕ) (codec : Codec) (openmp : Bool)
    (bytes out : List ℕ) (st other : State)
    → IsLosslessOn accepts capacity codec
    → AllBelow 256 bytes
    → (openmp || accepts (length bytes)) ≡ true
    → length bytes + codec.get_chunk_size < 2 ^ 64
    → count_parts codec (length bytes) < 2 ^ 31
    → length bytes ≤ length out
    → (new : State) × (compress codec capacity openmp bytes (length bytes) st ≡ some new)
      × (new' : State) × (decompress codec new.compressed out (length bytes) other
          ≡ finished new' (bytes ++ drop (length bytes) out))
unfolding compress compress_results
decompress-compress_accepted accepts capacity codec false bytes out st other lossless a ok small few
      fits =
    let size = length bytes in
    let (old, e) = resize_one st.compressed in
    let input = codec.compress_chunk bytes size old in
    let part : slice 0 size bytes ≡ some bytes =
      slice_behind [] bytes 0 size refl (omega arith) ∙ ap some (take_all size bytes refl) in
    let stored = store_chunk-stored accepts capacity codec lossless bytes size old refl a ok in
    (
      record (add_totals size (input ∷ []) st) { compressed = input ∷ [] },
      unfold compress_whole in rw (part, e, stored) refl,
      add_totals size (input ∷ []) other,
      unfold decompress decompress_inputs in
          rw (lossless.given_back bytes old a ok, blit_behind [] out bytes 0 refl fits) refl,
    )
decompress-compress_accepted accepts capacity codec true bytes out st other lossless a ok small few
      fits =
    let size = length bytes in
    let n = count_parts codec size in
    let results = resize n st.compressed in
    let len : length results ≡ n = length-resize n st.compressed in
    let (rs, p, q, r) =
      parts_round_trip accepts capacity codec lossless size n small
        (enough codec lossless.chunk_pos size small) (tight codec lossless.chunk_pos size small)
        results 0 [] bytes [] out (omega (arith, len)) (omega arith) refl (omega arith) fits a in
    let (new', d) =
      decompress-parts accepts capacity codec lossless size small rs out (bytes ++ drop size out)
        other (q ∙ len) few r in
    (
      record (add_totals size rs st) { compressed = rs },
      rw (count_rounds-exact n few, take_all n results len, drop_all n results len, p, append-nil)
          refl,
      new',
      d,
    )

-- With a lossless codec whose results fit the memory that `reserve` leaves them, compressing bytes succeeds in a build
-- with and without OpenMP, whatever the compressor did before, and decompressing the results, by an object in any state, writes the bytes back
-- and changes nothing behind them. The size with a chunk more fits 64 bits, and the number of chunks
-- an `int`.
pub decompress-compress_bytes :
    (capacity : ℕ → List ℕ → ℕ) (codec : Codec) (openmp : Bool) (bytes out : List ℕ)
    (st other : State)
    → IsLossless codec
    → AreStored capacity codec
    → AllBelow 256 bytes
    → length bytes + codec.get_chunk_size < 2 ^ 64
    → count_parts codec (length bytes) < 2 ^ 31
    → length bytes ≤ length out
    → (new : State) × (compress codec capacity openmp bytes (length bytes) st ≡ some new)
      × (new' : State) × (decompress codec new.compressed out (length bytes) other
          ≡ finished new' (bytes ++ drop (length bytes) out))
decompress-compress_bytes capacity codec openmp bytes out st other lossless room a small few fits =
    decompress-compress_accepted (λ n. true) capacity codec openmp bytes out st other
      (IsLossless-IsLosslessOn capacity codec lossless room) a (accepted openmp) small few fits
  where
    accepted : (b : Bool) → (b || true) ≡ true
    accepted true = refl
    accepted false = refl
