-- ===== src/Rle/Runs.antt =====
-- What the compression loop stores, without the accumulated output.
use native.Mathlib.Nat.{mod-eq_of_lt}
use pression.Base.{
  ℕ, ◌+◌, ◌<◌, ◌≤◌, ◌≡◌, refl, ap, ◌∙◌, arith, true, false, not, ◌&&◌, ◌==◌, if◌then◌else◌,
  Bool-cases, inl, inr, List, [], ◌∷◌, ◌++◌, append_assoc,
}
use pression.Rle.{write, compress_token, write_output, compress_rest, compress_channel}

-- One run, as `_write` stores it behind nothing.
unfoldable pub run : ℕ → ℕ → ℕ → List ℕ
unfolding write
run marker token n = write marker token n []

pub write-append :
    (marker token n : ℕ) (out : List ℕ) → write marker token n out ≡ out ++ run marker token n
unfolding write run
write-append marker token n out = ground arith

module _ (marker limit : ℕ) where
  -- The output for `same` tokens `last` that are still to be stored, followed by `xs`.
  unfoldable pub runs : ℕ → ℕ → List ℕ → List ℕ
  runs last same [] = run marker last same
  runs last same (x ∷ xs) =
      let longer = runs last (same + 1) xs in
      let next = run marker last same ++ runs x 1 xs in
      if x == last && not (same == limit) then longer else next

  compress_token-longer :
      (x last same : ℕ) (out : List ℕ)
      → (x == last && not (same == limit)) ≡ true
      → same + 1 ≤ limit
      → compress_token marker limit x (record { last = last; same = same; out = out })
        ≡ record { last = last; same = same + 1; out = out }
  unfolding compress_token
  compress_token-longer x last same out longer below =
      rw longer
        (ap (λ (t : ℕ). record { last = last; same = t; out = out }) (mod-eq_of_lt (omega arith)))

  compress_token-next :
      (x last same : ℕ) (out : List ℕ)
      → (x == last && not (same == limit)) ≡ false
      → compress_token marker limit x (record { last = last; same = same; out = out })
        ≡ record { last = x; same = 1; out = write marker last same out }
  unfolding compress_token
  compress_token-next x last same out next = rw next refl

  pub compress_rest-runs :
      (xs : List ℕ) (last same : ℕ) (out : List ℕ)
      → 0 < limit
      → same ≤ limit
      → write_output marker
          (compress_rest marker limit xs (record { last = last; same = same; out = out }))
        ≡ out ++ runs last same xs
  unfolding compress_rest write_output runs
  compress_rest-runs [] last same out pos fits = write-append marker last same out
  compress_rest-runs (x ∷ xs) last same out pos fits =
      elim (Bool-cases (x == last && not (same == limit))) [
        | inl longer ↦
            let below : same + 1 ≤ limit = ground arith in
            let token = compress_token-longer x last same out longer below in
            let rest = compress_rest-runs xs last (same + 1) out pos below in
            ap (λ ch. write_output marker (compress_rest marker limit xs ch)) token ∙ rw longer rest
        | inr next ↦
            let rest = compress_rest-runs xs x 1 (write marker last same out) pos (omega arith) in
            let token = compress_token-next x last same out next in
            ap (λ ch. write_output marker (compress_rest marker limit xs ch)) token
            ∙ rw next (
                rest
                ∙ ap (λ t. t ++ runs x 1 xs) (write-append marker last same out)
                ∙ append_assoc out (run marker last same) (runs x 1 xs))
      ]

  pub compress_channel-runs :
      (x : ℕ) (xs : List ℕ) → 0 < limit → compress_channel marker limit (x ∷ xs) ≡ runs x 1 xs
  unfolding compress_channel
  compress_channel-runs x xs pos = compress_rest-runs xs x 1 [] pos (omega arith)
