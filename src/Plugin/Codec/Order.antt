-- ===== src/Plugin/Codec/Order.antt =====
-- The loop of `_decompress` in pression/compressor/compressorRLE.ipp with its rounds in any order: under
-- `#pragma omp parallel for` each processor takes some of them.
pub mod Schedule
pub mod Write
use mathlib.Core.Path.{subst}
use mathlib.Core.List.{Permᴰ}
use pression.Base.{
  ℕ, zero, suc, ◌+◌, ◌*◌, ◌/◌, ◌≤◌, ◌<◌, ◌≡◌, refl, sym, ap, ◌∙◌, arith, List, [], ◌∷◌, ◌++◌,
  append_assoc, length, length-append, get_elem?, Option, none, some, Option-cases, Bool-cases, ltb,
  ◌==◌, ◌⊎◌, inl, inr,
}
use pression.Base.Buffer.{blit}
use pression.Rle.{◌>>=◌}
use pression.Plugin.Types.{Format}
use pression.Plugin.Float.{Float32}
use pression.Plugin.Chunk.{Readers, Streams, read_pixel, read_pixels, start_readers}
use pression.Plugin.Codec.{chunk_size, start_index, decompress_chunks, decompress}
use pression.Plugin.Codec.RoundTrip.{border, IsDivision, chunk_size-border}
use pression.Plugin.Codec.Order.Schedule.{after_equal, bind-some, run, Commute, run-Perm}
use pression.Plugin.Codec.Order.Write.{blit_comm}

get_elem?-inside :
    {A : Type 0} (xs : List A) (i : ℕ) (x : A) → get_elem? xs i ≡ some x → i < length xs
get_elem?-inside [] i x h = absurd (ground (arith, h))
get_elem?-inside (y ∷ xs) zero x h = omega arith
get_elem?-inside (y ∷ xs) (suc i) x h = omega (arith, get_elem?-inside xs i x h)

-- A round that writes what was read, if anything.
abbrev written : Option (List ℕ) → ℕ → List ℕ → Option (List ℕ)
written part start out = do pixels ← part; blit start pixels out

fails_after : {A : Type 0} (o : Option A) → (o >>= λ a. written none 0 []) ≡ none
fails_after none = refl
fails_after (some a) = refl

written_comm :
    (one other : Option (List ℕ)) (s t : ℕ) (out : List ℕ)
    → ((p q : List ℕ) → one ≡ some p → other ≡ some q → s + length p ≤ t)
    → (written one s out >>= written other t) ≡ (written other t out >>= written one s)
written_comm none other s t out h = sym (fails_after (written other t out))
written_comm (some p) none s t out h = fails_after (blit s p out)
written_comm (some p) (some q) s t out h = blit_comm s t p q out (h p q refl refl)

trichotomy : (c d : ℕ) → (c < d) ⊎ ((c ≡ d) ⊎ (d < c))
trichotomy c d = elim (Bool-cases (ltb c d)) [
  | inl e ↦ inl (ground (arith, e))
  | inr e ↦ elim (Bool-cases (c == d)) [
    | inl f ↦ inr (inl (ground (arith, f)))
    | inr f ↦ inr (inr (ground (arith, e, f)))
  ]
]

length-read_pixels :
    (marker limit : ℕ) (format : Format) (n : ℕ) (rs : Readers) (r : List ℕ × Readers)
    → read_pixels marker limit format n rs ≡ some r
    → length r.0 ≡ n
unfolding read_pixels
length-read_pixels marker limit format zero rs r h = ground (arith, h)
length-read_pixels marker limit format (suc n) rs r h =
    let ((p, rs'), _, g) = bind-some (read_pixel marker limit format rs) _ r h in
    let (rest, e, k) = bind-some (read_pixels marker limit format n rs') _ r g in
    ground (arith, k, length-read_pixels marker limit format n rs' rest e)

module _ (fl : Float32) (marker limit : ℕ) (format : Format) (n_pixels n_chunks : ℕ)
    (inputs : List (List ℕ)) where
  -- What the round for the chunk `c` reads from its four inputs.
  unfoldable pub read_chunk : ℕ → Option (List ℕ)
  read_chunk c = do
    i ← get_elem? inputs (4 * c)
    j ← get_elem? inputs (4 * c + 1)
    k ← get_elem? inputs (4 * c + 2)
    l ← get_elem? inputs (4 * c + 3)
    (pixels, ends) ←
        read_pixels marker limit format (chunk_size fl n_pixels n_chunks c)
          (start_readers (record { one = i; two = j; three = k; four = l }))
    some pixels

  -- The round.
  unfoldable pub decompress_chunk : ℕ → List ℕ → Option (List ℕ)
  decompress_chunk c out = do pixels ← read_chunk c; blit (border fl n_pixels n_chunks c) pixels out

  module _ (k reach : ℕ) (four : length inputs ≡ 4 * k)
      (div : IsDivision fl n_pixels n_chunks reach k) where
    -- A chunk that is read has the size of the chunk, and is one of the `k`.
    read_chunk-inside :
        (c : ℕ) (pixels : List ℕ)
        → read_chunk c ≡ some pixels
        → (c < k) × (length pixels ≡ chunk_size fl n_pixels n_chunks c)
    unfolding read_chunk
    read_chunk-inside c pixels h =
        let (i, _, h1) = bind-some (get_elem? inputs (4 * c)) _ pixels h in
        let (j, _, h2) = bind-some (get_elem? inputs (4 * c + 1)) _ pixels h1 in
        let (k', _, h3) = bind-some (get_elem? inputs (4 * c + 2)) _ pixels h2 in
        let (l, e, h4) = bind-some (get_elem? inputs (4 * c + 3)) _ pixels h3 in
        let start = start_readers (record { one = i; two = j; three = k'; four = l }) in
        let size = chunk_size fl n_pixels n_chunks c in
        let (r, f, g) = bind-some (read_pixels marker limit format size start) _ pixels h4 in
        (
          omega (arith, four, get_elem?-inside inputs (4 * c + 3) l e),
          ground (arith, g, length-read_pixels marker limit format size start r f),
        )

    exchanged :
        (c d : ℕ) (out : List ℕ)
        → c < d
        → (decompress_chunk c out >>= decompress_chunk d)
          ≡ (decompress_chunk d out >>= decompress_chunk c)
    unfolding decompress_chunk
    exchanged c d out h =
        written_comm (read_chunk c) (read_chunk d) (border fl n_pixels n_chunks c)
          (border fl n_pixels n_chunks d) out
          (λ p q e f.
            let (_, size) = read_chunk-inside c p e in
            let (inside, _) = read_chunk-inside d q f in
            let next =
              chunk_size-border fl n_pixels n_chunks c
                (div.rising c (c + 1) (omega arith) (omega (arith, inside, h))) in
            let apart = div.rising (c + 1) d (omega (arith, h)) (omega (arith, inside)) in
            omega (arith, size, next, apart))

    each-Commute : (c d : ℕ) → Commute decompress_chunk c d
    each-Commute c d out = elim (trichotomy c d) [
      | inl less ↦ exchanged c d out less
      | inr (inl same) ↦ rw same refl
      | inr (inr more) ↦ sym (exchanged d c out more)
    ]

-- The rounds in order.
abbrev pub rounds : ℕ → ℕ → List ℕ
rounds c zero = []
rounds c (suc k) = c ∷ rounds (c + 1) k

get_elem?-behind :
    {A : Type 0} (xs ys : List A) (i t : ℕ)
    → i ≡ length xs + t
    → get_elem? (xs ++ ys) i ≡ get_elem? ys t
get_elem?-behind [] ys i t e = ap (get_elem? ys) (omega (arith, e))
get_elem?-behind (x ∷ xs) ys zero t e = absurd (omega (arith, e))
get_elem?-behind (x ∷ xs) ys (suc i) t e = get_elem?-behind xs ys i t (omega (arith, e))

module _ (fl : Float32) (marker limit : ℕ) (format : Format) (n_pixels n_chunks : ℕ) where
  abbrev InOrder : ℕ → ℕ → List (List ℕ) → List (List ℕ) → List ℕ → Type 0
  InOrder m c inputs rest out =
      run (decompress_chunk fl marker limit format n_pixels n_chunks inputs) (rounds c m) out
      ≡ decompress_chunks fl marker limit format n_pixels n_chunks c rest out

  -- In order, the rounds are the loop of `_decompress`.
  run-rounds :
      (m c : ℕ) (before rest : List (List ℕ)) (out : List ℕ)
      → length before ≡ 4 * c
      → length rest ≡ 4 * m
      → InOrder m c (before ++ rest) rest out
  unfolding run decompress_chunks decompress_chunk read_chunk
  run-rounds zero c before [] out b r = refl
  run-rounds zero c before (i ∷ rest) out b r = absurd (omega (arith, r))
  run-rounds (suc m) c before [] out b r = absurd (omega (arith, r))
  run-rounds (suc m) c before (i ∷ []) out b r = absurd (omega (arith, r))
  run-rounds (suc m) c before (i ∷ j ∷ []) out b r = absurd (omega (arith, r))
  run-rounds (suc m) c before (i ∷ j ∷ k ∷ []) out b r = absurd (omega (arith, r))
  run-rounds (suc m) c before (i ∷ j ∷ k ∷ l ∷ rest) out b r =
      let ys = i ∷ j ∷ k ∷ l ∷ rest in
      let pixels =
        read_pixels marker limit format (chunk_size fl n_pixels n_chunks c)
          (start_readers (record { one = i; two = j; three = k; four = l })) in
      let four = i ∷ j ∷ k ∷ l ∷ [] in
      let next : (t : List ℕ) → InOrder m (c + 1) (before ++ ys) rest t = λ t.
        subst (λ xs. InOrder m (c + 1) xs rest t) (append_assoc before four rest)
          (run-rounds m (c + 1) (before ++ four) rest t
            (omega (arith, b, length-append before four)) (omega (arith, r))) in
      rw
        (
          get_elem?-behind before ys (4 * c) 0 (omega (arith, b)),
          get_elem?-behind before ys (4 * c + 1) 1 (omega (arith, b)),
          get_elem?-behind before ys (4 * c + 2) 2 (omega (arith, b)),
          get_elem?-behind before ys (4 * c + 3) 3 (omega (arith, b)),
        )
        (elim (Option-cases pixels) [
          | inl e ↦ rw e refl
          | inr ((ps, ends), e) ↦
              rw e (after_equal _ _ (blit (border fl n_pixels n_chunks c) ps out) next)
        ])

-- If single-precision arithmetic divides an image into chunks, in whatever order the rounds of the loop of `_decompress` are
-- executed, for four inputs each, the output is that of the rounds in order; or, if one of them leaves an input or the
-- output, so it does in any order.
pub decompress_any_order :
    (fl : Float32) (marker limit pixel_size n_pixels k reach : ℕ) (format : Format)
    (inputs : List (List ℕ)) (out : List ℕ) (order : List ℕ)
    → length inputs ≡ 4 * k
    → IsDivision fl n_pixels (length inputs) reach k
    → Permᴰ order (rounds 0 k)
    → run (decompress_chunk fl marker limit format n_pixels (length inputs) inputs) order out
      ≡ decompress fl marker limit pixel_size format n_pixels inputs out
unfolding decompress
decompress_any_order fl marker limit pixel_size n_pixels k reach format inputs out order four div
      p =
    run-Perm (decompress_chunk fl marker limit format n_pixels (length inputs) inputs)
      (each-Commute fl marker limit format n_pixels (length inputs) inputs k reach four div) p out
    ∙ run-rounds fl marker limit format n_pixels (length inputs) k 0 [] inputs out refl four
