-- ===== src/Base/Bits/Step.antt =====
-- One equation for the lowest digit of the native `&` and `|`, whatever the number of rounds that
-- their definition allows.
use Prim.Native.Nat.{
  ℕ, zero, suc, ◌+◌, ◌-◌, ◌*◌, ◌/◌, ◌%◌, ◌≤◌, min, max, bit_and, bit_or, digits, bitwise,
  bit_and-bitwise, bit_or-bitwise,
}
use mathlib.Core.Path.{◌≡◌, refl, ap, ◌∙◌}
use native.Mathlib.Omega.{arith}
use Prim.Native.Nat.add

module _ (ended : ℕ → ℕ) (digit : ℕ → ℕ → ℕ) where
  -- Rounds beyond the first operand are not used.
  spare_rounds :
      (rounds spare x y : ℕ)
      → x ≤ rounds
      → digits ended digit (rounds + spare) x y ≡ digits ended digit rounds x y
  spare_rounds zero zero zero y h = refl
  spare_rounds zero (suc spare) zero y h = rw add.zero refl
  spare_rounds zero spare (suc x) y h = absurd (omega arith)
  spare_rounds (suc rounds) spare zero y h = rw add.suc refl
  spare_rounds (suc rounds) spare (suc x) y h =
      let half = spare_rounds rounds spare (suc x / 2) (y / 2) (omega arith) in
      rw add.suc (ap (λ (t : ℕ). t * 2 + digit (suc x % 2) (y % 2)) half)

  -- The equation, if it holds where the first operand has no digits left.
  lowest_digit :
      (x y : ℕ)
      → ((t : ℕ) → ended t ≡ ended (t / 2) * 2 + digit 0 (t % 2))
      → bitwise ended digit x y ≡ bitwise ended digit (x / 2) (y / 2) * 2 + digit (x % 2) (y % 2)
  lowest_digit zero y at_end = at_end y
  lowest_digit (suc x) y at_end =
      ap (λ (t : ℕ). t * 2 + digit (suc x % 2) (y % 2))
        (ap (λ (t : ℕ). digits ended digit t (suc x / 2) (y / 2)) rounds
          ∙ spare_rounds (suc x / 2) (x - suc x / 2) (suc x / 2) (y / 2) (omega arith))
    where
      rounds : x ≡ suc x / 2 + (x - suc x / 2)
      rounds = omega arith

pub bit_or_step : (a b : ℕ) → bit_or a b ≡ bit_or (a / 2) (b / 2) * 2 + max (a % 2) (b % 2)
bit_or_step a b = simp bit_or-bitwise (lowest_digit (λ y. y) max a b (λ t. omega arith))

pub bit_and_step : (a b : ℕ) → bit_and a b ≡ bit_and (a / 2) (b / 2) * 2 + min (a % 2) (b % 2)
bit_and_step a b = simp bit_and-bitwise (lowest_digit (λ y. 0) min a b (λ t. omega arith))
