-- ===== src/Plugin/Codec/Order/Write.antt =====
-- Writing over a part of a list, which leaves its length and what is outside of the part.
use Prim.Native.Nat.add
use pression.Base.{
  ℕ, zero, suc, ◌+◌, ◌≤◌, ◌≡◌, refl, ap, arith, false, leb, if◌then◌else◌, List, [], ◌∷◌, ◌++◌,
  length, take, drop, none, some, Bool-cases, inl, inr,
}
use pression.Base.Buffer.{blit}
use pression.Rle.{◌>>=◌}

module _ {A : Type 0} where
  abbrev write : ℕ → List A → List A → List A
  write zero [] xs = xs
  write zero (y ∷ ys) [] = []
  write zero (y ∷ ys) (x ∷ xs) = y ∷ write zero ys xs
  write (suc start) ys [] = []
  write (suc start) ys (x ∷ xs) = x ∷ write start ys xs

  write-nil : (start : ℕ) (ys : List A) → write start ys [] ≡ []
  write-nil zero [] = refl
  write-nil zero (y ∷ ys) = refl
  write-nil (suc start) ys = refl

  length-write : (start : ℕ) (ys xs : List A) → length (write start ys xs) ≡ length xs
  length-write zero [] xs = refl
  length-write zero (y ∷ ys) [] = refl
  length-write zero (y ∷ ys) (x ∷ xs) = ap suc (length-write zero ys xs)
  length-write (suc start) ys [] = refl
  length-write (suc start) ys (x ∷ xs) = ap suc (length-write start ys xs)

  -- Parts that do not overlap may be written in either order.
  write_comm :
      (s t : ℕ) (ys zs xs : List A)
      → s + length ys ≤ t
      → write t zs (write s ys xs) ≡ write s ys (write t zs xs)
  write_comm zero t [] zs xs h = refl
  write_comm s t ys zs [] h = rw (write-nil s ys, write-nil t zs, write-nil s ys) refl
  write_comm zero zero (y ∷ ys) zs (x ∷ xs) h = absurd (omega (arith, h))
  write_comm zero (suc t) (y ∷ ys) zs (x ∷ xs) h =
      ap (λ r. y ∷ r) (write_comm zero t ys zs xs (omega (arith, h)))
  write_comm (suc s) zero ys zs (x ∷ xs) h = absurd (omega (arith, h))
  write_comm (suc s) (suc t) ys zs (x ∷ xs) h =
      ap (λ r. x ∷ r) (write_comm s t ys zs xs (omega (arith, h)))

  spliced :
      (start : ℕ) (ys xs : List A)
      → start + length ys ≤ length xs
      → take start xs ++ (ys ++ drop (start + length ys) xs) ≡ write start ys xs
  spliced zero [] xs h = refl
  spliced zero (y ∷ ys) [] h = absurd (omega (arith, h))
  spliced zero (y ∷ ys) (x ∷ xs) h =
      rw add.zero (ap (λ r. y ∷ r) (rw add.zero at (spliced zero ys xs (omega (arith, h)))))
  spliced (suc start) ys [] h = absurd (omega (arith, h))
  spliced (suc start) ys (x ∷ xs) h =
      rw add.suc (ap (λ r. x ∷ r) (spliced start ys xs (omega (arith, h))))

  blit-write :
      (start : ℕ) (ys xs : List A)
      → blit start ys xs
        ≡ (if leb (start + length ys) (length xs) then some (write start ys xs) else none)
  unfolding blit
  blit-write start ys xs = elim (Bool-cases (leb (start + length ys) (length xs))) [
    | inl e ↦ rw e (ap some (spliced start ys xs (ground (arith, e))))
    | inr e ↦ rw e refl
  ]

  -- So it is with `blit`, which fails for either order, or for none.
  pub blit_comm :
      (s t : ℕ) (ys zs xs : List A)
      → s + length ys ≤ t
      → (blit s ys xs >>= blit t zs) ≡ (blit t zs xs >>= blit s ys)
  blit_comm s t ys zs xs h = elim (Bool-cases (leb (s + length ys) (length xs))) [
    | inl e ↦ elim (Bool-cases (leb (t + length zs) (length xs))) [
      | inl f ↦
          rw (blit-write s ys xs, blit-write t zs xs, e, f)
            (rw
              (
                blit-write t zs (write s ys xs),
                blit-write s ys (write t zs xs),
                length-write s ys xs,
                length-write t zs xs,
                e,
                f,
              )
              (ap some (write_comm s t ys zs xs h)))
      | inr f ↦
          rw (blit-write s ys xs, blit-write t zs xs, e, f)
            (rw (blit-write t zs (write s ys xs), length-write s ys xs, f) refl)
    ]
    | inr e ↦
        let f : leb (t + length zs) (length xs) ≡ false = ground (arith, e, h) in
        rw (blit-write s ys xs, blit-write t zs xs, e, f) refl
  ]
