-- ===== src/Plugin/Chunk/RoundTrip.antt =====
-- Reading a compressed chunk gives back its pixels, split and joined.
use pression.Base.{
  ℕ, suc, ◌<◌, ◌≡◌, refl, arith, List, [], ◌∷◌, append-nil, map, length, length-map, some,
  Option-cases, inl, inr,
}
use pression.Rle.{Reader, start_reader, read, read_channel, compress_channel}
use pression.Rle.RoundTrip.{read_channel-compress_channel}
use pression.Plugin.Types.{Swizzle4, Swizzle3, Format, use_alpha, no_alpha, rejoin}
use pression.Plugin.Chunk.{Readers, compress_chunk, read_pixels, start_readers}
use pression.Plugin.Chunk.Split.{compress_chunk-apart}

module _ (marker limit : ℕ) where
  -- The first of several reads.
  read_channel-cons :
      (n x : ℕ) (xs : List ℕ) (r s : Reader)
      → read_channel marker limit (suc n) r ≡ some (x ∷ xs, s)
      → (r' : Reader) × (read marker limit r ≡ some r')
        × (r'.token ≡ x)
        × (read_channel marker limit n r' ≡ some (xs, s))
  unfolding read_channel
  read_channel-cons n x xs r s e = elim (Option-cases (read marker limit r)) [
    | inl f ↦ absurd (ground (arith, f))
    | inr (r', f) ↦ elim (Option-cases (read_channel marker limit n r')) [
      | inl g ↦ absurd (ground (arith, f, g))
      | inr ((ys, t), g) ↦ (r', f, ground (arith, f, g), ground (arith, f, g))
    ]
  ]

  -- Four channels that can be read one by one can be read together.
  read_pixels4 :
      (s : Swizzle4) (ps : List ℕ) (rs ends : Readers)
      → read_channel marker limit (length ps) rs.one
        ≡ some (map (λ p. (s.split p).one) ps, ends.one)
      → read_channel marker limit (length ps) rs.two
        ≡ some (map (λ p. (s.split p).two) ps, ends.two)
      → read_channel marker limit (length ps) rs.three
        ≡ some (map (λ p. (s.split p).three) ps, ends.three)
      → read_channel marker limit (length ps) rs.four
        ≡ some (map (λ p. (s.split p).four) ps, ends.four)
      → read_pixels marker limit (use_alpha s) (length ps) rs
        ≡ some (map (λ p. s.join (s.split p)) ps, ends)
  unfolding read_pixels
  read_pixels4 s [] rs ends a b c d = unfold read_channel in ground arith
  read_pixels4 s (p ∷ ps) rs ends a b c d =
      let (ra, a1, a2, a3) = read_channel-cons (length ps) _ _ rs.one ends.one a in
      let (rb, b1, b2, b3) = read_channel-cons (length ps) _ _ rs.two ends.two b in
      let (rc, c1, c2, c3) = read_channel-cons (length ps) _ _ rs.three ends.three c in
      let (rd, d1, d2, d3) = read_channel-cons (length ps) _ _ rs.four ends.four d in
      let next : Readers = record { one = ra; two = rb; three = rc; four = rd } in
      ground (arith, a1, b1, c1, d1, a2, b2, c2, d2, read_pixels4 s ps next ends a3 b3 c3 d3)

  read_pixels3 :
      (s : Swizzle3) (ps : List ℕ) (rs ends : Readers)
      → read_channel marker limit (length ps) rs.one
        ≡ some (map (λ p. (s.split p).one) ps, ends.one)
      → read_channel marker limit (length ps) rs.two
        ≡ some (map (λ p. (s.split p).two) ps, ends.two)
      → read_channel marker limit (length ps) rs.three
        ≡ some (map (λ p. (s.split p).three) ps, ends.three)
      → rs.four ≡ ends.four
      → read_pixels marker limit (no_alpha s) (length ps) rs
        ≡ some (map (λ p. s.join (s.split p)) ps, ends)
  unfolding read_pixels
  read_pixels3 s [] rs ends a b c d = unfold read_channel in ground arith
  read_pixels3 s (p ∷ ps) rs ends a b c d =
      let (ra, a1, a2, a3) = read_channel-cons (length ps) _ _ rs.one ends.one a in
      let (rb, b1, b2, b3) = read_channel-cons (length ps) _ _ rs.two ends.two b in
      let (rc, c1, c2, c3) = read_channel-cons (length ps) _ _ rs.three ends.three c in
      let next : Readers = record { one = ra; two = rb; three = rc; four = rs.four } in
      ground (arith, a1, b1, c1, a2, b2, c2, read_pixels3 s ps next ends a3 b3 c3 d)

  -- Reading one channel of a chunk by itself.
  read_component :
      (f : ℕ → ℕ) (ps : List ℕ)
      → 0 < limit
      → (t : ℕ) × (read_channel marker limit
            (length ps)
            (start_reader (compress_channel marker limit (map f ps)))
          ≡ some (map f ps, record { token = t; left = 0; input = [] }))
  read_component f ps h =
      let (t, e) = read_channel-compress_channel marker limit (map f ps) [] h in
      (t, rw (append-nil, length-map) at e)

  -- Reading as many pixels as were compressed gives each one as it is joined from its components,
  -- and uses up the inputs of the first three channels: what the assertions behind the loop ask.
  pub read_pixels-compress_chunk :
      (format : Format) (pixels : List ℕ)
      → 0 < limit
      → (ends : Readers) × (read_pixels marker limit format
            (length pixels)
            (start_readers (compress_chunk marker limit format pixels))
          ≡ some (map (rejoin format) pixels, ends))
        × (ends.one.input ≡ [])
        × (ends.two.input ≡ [])
        × (ends.three.input ≡ [])
  read_pixels-compress_chunk (use_alpha s) ps h =
      let (a, p) = read_component (λ p. (s.split p).one) ps h in
      let (b, q) = read_component (λ p. (s.split p).two) ps h in
      let (c, r) = read_component (λ p. (s.split p).three) ps h in
      let (d, t) = read_component (λ p. (s.split p).four) ps h in
      let ends : Readers = record {
        one = record { token = a; left = 0; input = [] };
        two = record { token = b; left = 0; input = [] };
        three = record { token = c; left = 0; input = [] };
        four = record { token = d; left = 0; input = [] };
      } in
      (
        ends,
        rw (compress_chunk-apart marker limit (use_alpha s) ps) (read_pixels4 s ps _ ends p q r t),
        refl,
        refl,
        refl,
      )
  read_pixels-compress_chunk (no_alpha s) [] h = (
    start_readers (record { one = []; two = []; three = []; four = [] }),
    unfold read_pixels compress_chunk in refl,
    refl,
    refl,
    refl,
  )
  read_pixels-compress_chunk (no_alpha s) (x ∷ xs) h =
      let (a, p) = read_component (λ p. (s.split p).one) (x ∷ xs) h in
      let (b, q) = read_component (λ p. (s.split p).two) (x ∷ xs) h in
      let (c, r) = read_component (λ p. (s.split p).three) (x ∷ xs) h in
      let ends : Readers = record {
        one = record { token = a; left = 0; input = [] };
        two = record { token = b; left = 0; input = [] };
        three = record { token = c; left = 0; input = [] };
        four = start_reader (compress_channel marker limit (0 ∷ []));
      } in
      (
        ends,
        rw (compress_chunk-apart marker limit (no_alpha s) (x ∷ xs))
            (read_pixels3 s (x ∷ xs) _ ends p q r refl),
        refl,
        refl,
        refl,
      )
