-- ===== src/Rle/RoundTrip.antt =====
-- Reading a compressed channel gives back what was compressed.
use Prim.Native.Nat.add
use native.Mathlib.Numerals.{add-one}
use native.Mathlib.Nat.{add-zero}
use pression.Base.{
  ℕ, zero, suc, ◌+◌, ◌%◌, ◌≤◌, ◌<◌, ◌≡◌, refl, ap, ◌∙◌, arith, ◌==◌, Bool-cases, inl, inr, List, [],
  ◌∷◌, ◌++◌, append_assoc, append-nil, length, replicate, Option-cases, some, true, not, ◌&&◌,
}
use pression.Rle.{fetch, Reader, start_reader, count_down, read, read_channel, compress_channel}
use pression.Rle.Runs.{run, runs, compress_channel-runs}

replicate_one_more {ℓ} :
    {A : Type ℓ} (n : ℕ) (a : A) (xs : List A)
    → replicate (n + 1) a ++ xs ≡ replicate n a ++ (a ∷ xs)
replicate_one_more n a xs = rw add-one (shift n)
  where
    shift : (k : ℕ) → replicate (suc k) a ++ xs ≡ replicate k a ++ (a ∷ xs)
    shift zero = refl
    shift (suc k) = ap (λ t. a ∷ t) (shift k)

module _ (marker limit : ℕ) where
  next_left : (k : ℕ) → suc k ≤ limit → (suc k + limit) % suc limit ≡ k
  next_left k h = grind arith

  count_down-suc :
      (k t : ℕ) (input : List ℕ)
      → suc k ≤ limit
      → count_down marker limit (record { token = t; left = suc k; input = input })
        ≡ record { token = t; left = k; input = input }
  unfolding count_down
  count_down-suc k t input h = grind (arith, next_left k)

  -- The tokens of a run that was fetched.
  read_channel-left :
      (k t : ℕ) (input : List ℕ)
      → k ≤ limit
      → read_channel marker limit k (record { token = t; left = k; input = input })
        ≡ some (replicate k t, record { token = t; left = 0; input = input })
  unfolding read_channel
  read_channel-left zero t input h = refl
  read_channel-left (suc k) t input h =
      ground (arith, count_down-suc k t input h, read_channel-left k t input)

  -- Reading goes on behind what was read.
  read_channel-add :
      (m n : ℕ) (r s u : Reader) (xs ys : List ℕ)
      → read_channel marker limit m r ≡ some (xs, s)
      → read_channel marker limit n s ≡ some (ys, u)
      → read_channel marker limit (m + n) r ≡ some (xs ++ ys, u)
  unfolding read_channel
  read_channel-add zero n r s u xs ys p q = rw add.zero (ground arith)
  read_channel-add (suc m) n r s u xs ys p q =
      rw add.suc (elim (Option-cases (read marker limit r)) [
        | inl e ↦ ground (arith, e)
        | inr (r', e) ↦ elim (Option-cases (read_channel marker limit m r')) [
          | inl f ↦ ground (arith, e, f)
          | inr ((zs, s'), f) ↦ ground (arith, e, f, read_channel-add m n r' s u zs ys)
        ]
      ])

  -- With nothing left over, a run that can be fetched is as good as one that was fetched.
  read_channel-fetch :
      (k t t' : ℕ) (input rest : List ℕ) (n : ℕ)
      → fetch marker input ≡ some (record { token = t; left = suc n; input = rest })
      → read_channel marker limit (suc k) (record { token = t'; left = 0; input = input })
        ≡ read_channel marker limit (suc k) (record { token = t; left = suc n; input = rest })
  unfolding read_channel
  read_channel-fetch k t t' input rest n e = ground (arith, e)

  -- Reading one stored run.
  read_channel-run :
      (n t t' : ℕ) (rest : List ℕ)
      → 0 < n
      → n ≤ limit
      → read_channel marker limit n
          (record { token = t'; left = 0; input = run marker t n ++ rest })
        ≡ some (replicate n t, record { token = t; left = 0; input = rest })
  unfolding run fetch count_down
  read_channel-run zero t t' rest pos h = absurd (omega arith)
  read_channel-run (suc zero) t t' rest pos h =
      unfold read_channel in ground (arith, count_down-suc 0 t rest, next_left 0)
  read_channel-run (suc (suc zero)) t t' rest pos h =
      unfold read_channel in ground (arith, next_left 0, next_left 1)
  read_channel-run (suc (suc (suc n))) t t' rest pos h =
      read_channel-fetch (suc (suc n)) t t' _ rest (suc (suc n)) (ground arith)
      ∙ read_channel-left (suc (suc (suc n))) t rest h

  -- Reading what the compression loop stores for `same` tokens `last` and the components `xs`.
  read_channel-runs :
      (xs : List ℕ) (last same t : ℕ) (rest : List ℕ)
      → 0 < same
      → same ≤ limit
      → (t' : ℕ) × (read_channel marker limit
            (same + length xs)
            (record { token = t; left = 0; input = runs marker limit last same xs ++ rest })
          ≡ some (replicate same last ++ xs, record { token = t'; left = 0; input = rest }))
  unfolding runs
  read_channel-runs [] last same t rest pos h =
      (last, rw (add-zero, append-nil) (read_channel-run same last t rest pos h))
  read_channel-runs (x ∷ xs) last same t rest pos h =
      elim (Bool-cases (x == last && not (same == limit))) [
        | inl longer ↦
            let (t', e) =
              read_channel-runs xs last (same + 1) t rest (omega arith) (one_more longer) in
            (t', rw longer (joined longer e))
        | inr next ↦
            let (t', e) = read_channel-runs xs x 1 last rest (omega arith) (omega arith) in
            (t', rw (next, append_assoc) (split e))
      ]
    where
      one_more : (x == last && not (same == limit)) ≡ true → same + 1 ≤ limit
      one_more e = ground arith

      joined :
          {t' : ℕ}
          → (x == last && not (same == limit)) ≡ true
          → read_channel marker limit
              (same + 1 + length xs)
              (record { token = t; left = 0; input = runs marker limit last (same + 1) xs ++ rest })
            ≡ some (replicate (same + 1) last ++ xs, record { token = t'; left = 0; input = rest })
          → read_channel marker limit
              (same + suc (length xs))
              (record { token = t; left = 0; input = runs marker limit last (same + 1) xs ++ rest })
            ≡ some (replicate same last ++ (x ∷ xs), record { token = t'; left = 0; input = rest })
      joined e f =
          let n : same + suc (length xs) ≡ same + 1 + length xs = omega arith in
          rw n (ground (arith, replicate_one_more same last xs))

      split :
          {t' : ℕ}
          → read_channel marker limit
              (1 + length xs)
              (record { token = last; left = 0; input = runs marker limit x 1 xs ++ rest })
            ≡ some (x ∷ xs, record { token = t'; left = 0; input = rest })
          → read_channel marker limit (same + suc (length xs)) (record {
            token = t;
            left = 0;
            input = run marker last same ++ (runs marker limit x 1 xs ++ rest);
          })
            ≡ some (replicate same last ++ (x ∷ xs), record { token = t'; left = 0; input = rest })
      split e =
          let n : 1 + length xs ≡ suc (length xs) = omega arith in
          read_channel-add same (suc (length xs)) _ _ _ (replicate same last) (x ∷ xs)
            (read_channel-run same last t (runs marker limit x 1 xs ++ rest) pos h) (rw n at e)

-- Reading as many components as were compressed gives them back; nothing is left over of the last
-- run, and what follows the compressed channel in memory is not read. The largest component has to be
-- above 0.
pub read_channel-compress_channel :
    (marker limit : ℕ) (xs rest : List ℕ)
    → 0 < limit
    → (t : ℕ) × (read_channel marker limit
          (length xs)
          (start_reader (compress_channel marker limit xs ++ rest))
        ≡ some (xs, record { token = t; left = 0; input = rest }))
unfolding read_channel compress_channel
read_channel-compress_channel marker limit [] rest h = (0, refl)
read_channel-compress_channel marker limit (x ∷ xs) rest h =
    let (t, e) = read_channel-runs marker limit xs x 1 0 rest (omega arith) (omega arith) in
    let n : 1 + length xs ≡ suc (length xs) = omega arith in
    (t, rw (compress_channel-runs marker limit x xs h) (rw n at e))
