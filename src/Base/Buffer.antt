-- ===== src/Base/Buffer.antt =====
-- Reads and writes of parts of a buffer; `none` is an access outside of it.
use Prim.Native.Nat.{ℕ, zero, suc, ◌+◌, ◌≤◌}
use Prim.Native.Nat.add
use mathlib.Core.Path.{◌≡◌, refl, ap, sym}
use mathlib.Core.Bool.{true}
use mathlib.Core.List.{List, [], ◌∷◌, ◌++◌, append_assoc, append-nil}
use mathlib.Core.Option.{Option, none, some}
use native.Mathlib.Omega.{arith}
use pression.Base.Lists.{length, take, drop, length-append}
use pression.Base.Tests.{leb, if◌then◌else◌}

module _ {ℓ} {A : Type ℓ} where
  -- `n` elements from `start` on.
  unfoldable pub slice : ℕ → ℕ → List A → Option (List A)
  slice start n xs = if leb (start + n) (length xs) then some (take n (drop start xs)) else none

  -- `ys` written over what stands from `start` on.
  unfoldable pub blit : ℕ → List A → List A → Option (List A)
  blit start ys buffer =
      if leb (start + length ys) (length buffer)
      then some (take start buffer ++ (ys ++ drop (start + length ys) buffer))
      else none

  pub take_behind : (xs ys : List A) → take (length xs) (xs ++ ys) ≡ xs
  take_behind [] ys = refl
  take_behind (x ∷ xs) ys = ap (λ t. x ∷ t) (take_behind xs ys)

  pub drop_behind : (xs ys : List A) → drop (length xs) (xs ++ ys) ≡ ys
  drop_behind [] ys = refl
  drop_behind (x ∷ xs) ys = drop_behind xs ys

  drop-nil : (n : ℕ) → drop {A = A} n [] ≡ []
  drop-nil zero = refl
  drop-nil (suc n) = refl

  pub drop-drop : (m n : ℕ) (xs : List A) → drop (m + n) xs ≡ drop n (drop m xs)
  drop-drop zero n xs = rw add.zero
  drop-drop (suc m) n [] = rw add.suc (sym (drop-nil n))
  drop-drop (suc m) n (x ∷ xs) = rw add.suc (drop-drop m n xs)

  -- A part behind what stands before it.
  pub slice_behind :
      (xs ys : List A) (start n : ℕ)
      → start ≡ length xs
      → n ≤ length ys
      → slice start n (xs ++ ys) ≡ some (take n ys)
  unfolding slice
  slice_behind xs ys start n e h = rw (in_range, e, drop_behind xs ys)
    where
      in_range : leb (start + n) (length (xs ++ ys)) ≡ true
      in_range = ground (arith, length-append xs ys)

  pub blit_behind :
      (done old ys : List A) (start : ℕ)
      → start ≡ length done
      → length ys ≤ length old
      → blit start ys (done ++ old) ≡ some ((done ++ ys) ++ drop (length ys) old)
  unfolding blit
  blit_behind done old ys start e h = rw (
    in_range,
    e,
    drop-drop (length done) (length ys) (done ++ old),
    take_behind done old,
    drop_behind done old,
    append_assoc,
  )
    where
      in_range : leb (start + length ys) (length (done ++ old)) ≡ true
      in_range = ground (arith, length-append done old)

module _ {A : Type 0} where
  pub take_all : (n : ℕ) (xs : List A) → length xs ≡ n → take n xs ≡ xs
  take_all n xs e = rw (append-nil, e) at (take_behind xs [])

  pub drop_all : (n : ℕ) (xs : List A) → length xs ≡ n → drop n xs ≡ []
  drop_all n xs e = rw (append-nil, e) at (drop_behind xs [])
