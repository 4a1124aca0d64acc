-- ===== src/Plugin/Codec/RoundTrip.antt =====
-- Decompressing the results of a compressor gives the image, each pixel split and joined.
use mathlib.Core.List.{map-append}
use pression.Base.{
  ℕ, zero, suc, ◌+◌, ◌*◌, ◌/◌, ◌%◌, ◌^◌, ◌≤◌, ◌<◌, ◌≡◌, refl, sym, ap, ap₂, ◌∙◌, arith, List, [],
  ◌∷◌, ◌++◌, append_assoc, append-nil, map, length, length-append, length-map, take, drop,
  take-append-drop, length-take, length-drop, Option, none, some, u64,
}
use pression.Base.Buffer.{slice_behind, blit_behind, take_behind, drop-drop}
use pression.Plugin.Types.{Format, rejoin}
use pression.Plugin.Float.{Float32, IsExact}
use pression.Plugin.Chunk.{compress_chunk}
use pression.Plugin.Chunk.RoundTrip.{read_pixels-compress_chunk}
use pression.Plugin.Codec.Stored.{HasRoom, compress_chunks-are_stored}
use pression.Plugin.Codec.{
  Build, max_chunk_size, count_chunks, Results, grow, first_of_chunk, start_index, chunk_size,
  compress_chunks, decompress_chunks, compress, decompress,
}

module _ (fl : Float32) (n_pixels n_chunks : ℕ) where
  -- The pixel at which the chunk `c` starts.
  abbrev pub border : ℕ → ℕ
  border c = start_index fl n_pixels n_chunks c / 4

  -- The chunks `0` to `k - 1` divide the pixels of the image up to the one at `reach`.
  pub record IsDivision (reach k : ℕ) : Type 0 where
    pub first : border 0 ≡ 0
    pub last : border k ≡ reach
    pub rising : (c d : ℕ) → c ≤ d → d ≤ k → border c ≤ border d

  -- The size of a chunk is the distance of its borders.
  pub chunk_size-border :
      (c : ℕ)
      → border c ≤ border (c + 1)
      → border c + chunk_size fl n_pixels n_chunks c ≡ border (c + 1)
  unfolding chunk_size start_index
  chunk_size-border c h = omega arith

  module _ (marker limit : ℕ) (format : Format) (pos : 0 < limit) (total reach : ℕ)
      (div : IsDivision reach total) (tail : List ℕ) where
    abbrev rejoined : List ℕ → List ℕ
    rejoined = map (rejoin format)

    -- One round of each loop, over a chunk `part`.
    compress_round :
        (k c : ℕ) (before part behind : List ℕ) (rs : List (List ℕ))
        → border c ≡ length before
        → chunk_size fl n_pixels n_chunks c ≡ length part
        → compress_chunks fl marker limit format n_pixels n_chunks k
            (c + 1)
            (before ++ (part ++ behind))
          ≡ some rs
        → let s = compress_chunk marker limit format part in
          compress_chunks fl marker limit format n_pixels n_chunks
            (suc k)
            c
            (before ++ (part ++ behind))
          ≡ some (s.one ∷ s.two ∷ s.three ∷ s.four ∷ rs)
    unfolding compress_chunks
    compress_round k c before part behind rs b m e = rw (
      m,
      slice_behind before (part ++ behind) (border c) (length part) b fits,
      take_behind part behind,
      e,
    )
      where
        fits : length part ≤ length (part ++ behind)
        fits = omega (arith, length-append part behind)

    decompress_round :
        (c : ℕ) (part done old : List ℕ) (rs : List (List ℕ)) {out : List ℕ}
        → border c ≡ length done
        → chunk_size fl n_pixels n_chunks c ≡ length part
        → length part ≤ length old
        → decompress_chunks fl marker limit format n_pixels n_chunks
            (c + 1)
            rs
            ((done ++ rejoined part) ++ drop (length part) old)
          ≡ some out
        → let s = compress_chunk marker limit format part in
          decompress_chunks fl marker limit format n_pixels n_chunks c
            (s.one ∷ s.two ∷ s.three ∷ s.four ∷ rs)
            (done ++ old)
          ≡ some out
    unfolding decompress_chunks
    decompress_round c part done old rs b m h e =
        let (ends, read, used1, used2, used3) =
          read_pixels-compress_chunk marker limit format part pos in
        rw (
          m,
          read,
          blit_behind done old (rejoined part) (border c) b (rw length-map h),
          length-map,
          e,
        )

    -- The output behind a chunk and all that follow it.
    output_joined :
        (m : ℕ) (after done old : List ℕ)
        → length (take m after) ≡ m
        → ((done ++ rejoined (take m after)) ++ rejoined (drop m after))
            ++ drop (length (drop m after)) (drop (length (take m after)) old)
          ≡ (done ++ rejoined after) ++ drop (length after) old
    output_joined m after done old len =
        ap₂ ◌++◌
          (append_assoc done _ _
            ∙ ap (λ t. done ++ t)
                (sym (map-append (rejoin format) (take m after) (drop m after))
                  ∙ ap rejoined (take-append-drop m after)))
          (sym (drop-drop (length (take m after)) (length (drop m after)) old)
            ∙ ap (λ t. drop t old) size)
      where
        size : length (take m after) + length (drop m after) ≡ length after
        size =
            sym (length-append (take m after) (drop m after)) ∙ ap length (take-append-drop m after)

    -- The chunks from `c` on, with the image and the output each in two parts: up to the border of
    -- `c`, and behind it. What is behind the last border, the tail of the image, is not read.
    chunks_round_trip :
        (k c : ℕ) (before after done old : List ℕ)
        → c + k ≡ total
        → border c ≡ length before
        → border c ≡ length done
        → reach ≡ length before + length after
        → length after ≤ length old
        → (rs : List (List ℕ)) × (compress_chunks fl marker limit format n_pixels n_chunks k c
              (before ++ (after ++ tail))
            ≡ some rs)
          × (length rs ≡ 4 * k)
          × (decompress_chunks fl marker limit format n_pixels n_chunks c rs (done ++ old)
              ≡ some ((done ++ rejoined after) ++ drop (length after) old))
    chunks_round_trip zero c before [] done old e b d n h =
        ([], unfold compress_chunks in refl, refl, rw append-nil (unfold decompress_chunks in refl))
    chunks_round_trip zero c before (x ∷ after) done old e b d n h =
        let t : c ≡ total = omega arith in absurd (omega (arith, ap border t, div.last))
    chunks_round_trip (suc k) c before after done old e b d n h =
        let m = chunk_size fl n_pixels n_chunks c in
        let size : border c + m ≡ border (c + 1) =
          chunk_size-border c (div.rising c (c + 1) (omega arith) (omega arith)) in
        let within : m ≤ length after =
          omega (arith, size, div.last, div.rising (c + 1) total (omega arith) (omega arith)) in
        let part = take m after in
        let behind = drop m after in
        let len : length part ≡ m = omega (arith, length-take m after) in
        let all : part ++ (behind ++ tail) ≡ after ++ tail =
          sym (append_assoc part behind tail) ∙ ap (λ t. t ++ tail) (take-append-drop m after) in
        let (rs, p, q, r) =
          chunks_round_trip k (c + 1) (before ++ part) behind (done ++ rejoined part)
            (drop (length part) old) (omega arith) (omega (arith, length-append before part))
            (omega (arith, length-append done (rejoined part), length-map part (rejoin format)))
            (omega (arith, length-append before part, length-drop m after))
            (omega (arith, length-drop m after, length-drop (length part) old)) in
        let s = compress_chunk marker limit format part in
        (
          s.one ∷ s.two ∷ s.three ∷ s.four ∷ rs,
          rw all at (
              compress_round k c before part (behind ++ tail) rs b (sym len)
                (rw append_assoc at p)),
          omega arith,
          decompress_round c part done old rs d (sym len) (omega arith)
              (r ∙ ap some (output_joined m after done old len)),
        )

-- The number of chunks is a multiple of four, whatever the machine and the image.
pub count_chunks-mod : (openmp : Option ℕ) (in_size : ℕ) → count_chunks openmp 4 in_size % 4 ≡ 0
unfolding count_chunks
count_chunks-mod none in_size = refl
count_chunks-mod (some procs) in_size = ground arith

module _ (fl : Float32) (marker limit pixel_size : ℕ) (format : Format) where
  -- The inputs of the decompressor, as the results of a compressor are taken from its buffers.
  decompress_taken :
      (n m : ℕ) (rs more : List (List ℕ)) (out : List ℕ) (result : Option (List ℕ))
      → length rs ≡ m
      → decompress_chunks fl marker limit format n m 0 rs out ≡ result
      → decompress fl marker limit pixel_size format n (take m (rs ++ more)) out ≡ result
  unfolding decompress
  decompress_taken n m rs more out result e h = rw taken (rw e h)
    where
      taken : take m (rs ++ more) ≡ rs
      taken = ap (λ t. take t (rs ++ more)) (sym e) ∙ take_behind rs more

  -- Wherever the single-precision arithmetic divides the pixels up to a number of them into chunks, compressing succeeds
  -- with as many results as it counts, and decompressing them gives those pixels, each split and joined, in front of what
  -- stood behind them in the output buffer. Results of earlier calls do not matter.
  pub decompress-compress :
      (build : Build) (image out : List ℕ) (old : Results) (reach : ℕ)
      → let n = length image in
        let n_chunks = count_chunks build.processors 4 (u64 (n * pixel_size)) in
        2 ≤ limit
        → HasRoom fl pixel_size build n
        → reach ≤ n
        → IsDivision fl n n_chunks reach (n_chunks / 4)
        → reach ≤ length out
        → (new : Results) × (compress fl marker limit pixel_size format build n image old
            ≡ some new)
          × (new.n_results ≤ length new.buffers)
          × (new.n_results ≡ n_chunks)
          × (decompress fl marker limit pixel_size format n (take new.n_results new.buffers) out
              ≡ some (map (rejoin format) (take reach image) ++ drop reach out))
  unfolding compress
  decompress-compress build image out old reach two room within div fits =
      let n = length image in
      let n_chunks = count_chunks build.processors 4 (u64 (n * pixel_size)) in
      let front = take reach image in
      let len' : length front ≡ reach = omega (arith, length-take reach image) in
      let (rs, p, q, r) =
        chunks_round_trip fl n n_chunks marker limit format (omega (arith, two)) (n_chunks / 4)
          reach div (drop reach image) (n_chunks / 4) 0 [] front [] out (omega arith) div.first
          div.first (omega (arith, len')) (omega (arith, len')) in
      let len : length rs ≡ n_chunks =
        omega (arith, count_chunks-mod build.processors (u64 (n * pixel_size))) in
      let whole : compress_chunks fl marker limit format n n_chunks (n_chunks / 4) 0 image
          ≡ some rs =
        rw (take-append-drop reach image) at p in
      let stored =
        compress_chunks-are_stored build.capacity (pixel_size / 4)
          (max_chunk_size (u64 (n * pixel_size)) n_chunks) fl marker limit format n n_chunks
          (n_chunks / 4) 0 image rs two (λ i h. room i (omega (arith, h))) whole
          (grow n_chunks old.buffers) in
      (
        record {
          buffers = rs ++ drop (length rs) (grow n_chunks old.buffers);
          n_results = n_chunks;
        },
        rw (whole, stored) refl,
        omega (arith, length-append rs (drop (length rs) (grow n_chunks old.buffers))),
        refl,
        decompress_taken n n_chunks rs _ out _ len
            (r ∙ ap (λ t. some (map (rejoin format) front ++ drop t out)) len'),
      )

-- In a serial build, where there is one chunk, an image of at most 2 ^ 24 pixels is divided.
pub serial_IsDivision : (fl : Float32) (n : ℕ) → IsExact fl → n ≤ 2 ^ 24 → IsDivision fl n 4 n 1
unfolding start_index first_of_chunk
serial_IsDivision fl n exact h = record { first = first; last = last; rising = rising }
  where
    whole : u64 (n * 4) ≡ n * 4
    whole = omega arith

    at : ℕ → ℕ → ℕ
    at c t = fl.to_uint (fl.times (fl.of_uint c) (fl.divided (fl.of_uint t) (fl.of_uint 4)))

    first : border fl n 4 0 ≡ 0
    first = omega (arith, exact.none_of n h, ap (at 0) whole)

    last : border fl n 4 1 ≡ n
    last = omega (arith, exact.all_of n h, ap (at 1) whole)

    rising : (c d : ℕ) → c ≤ d → d ≤ 1 → border fl n 4 c ≤ border fl n 4 d
    rising zero d p q = omega (arith, first)
    rising (suc zero) zero p q = absurd (omega arith)
    rising (suc zero) (suc zero) p q = omega arith
    rising (suc zero) (suc (suc d)) p q = absurd (omega arith)
    rising (suc (suc c)) d p q = absurd (omega arith)

-- The one chunk is the image.
pub serial_chunk_size : (fl : Float32) (n : ℕ) → IsExact fl → n ≤ 2 ^ 24 → chunk_size fl n 4 0 ≡ n
serial_chunk_size fl n exact small =
    let div = serial_IsDivision fl n exact small in
    let whole = chunk_size-border fl n 4 0 (div.rising 0 1 (omega arith) (omega arith)) in
    omega (arith, whole, div.first, div.last)
