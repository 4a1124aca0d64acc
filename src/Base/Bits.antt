-- ===== src/Base/Bits.antt =====
-- Laws of `&`, `|` and shifts at variables, by recursion on the binary digits.
mod Step
pub use Step.{bit_or_step, bit_and_step}
use Prim.Native.Nat.{
  ℕ, zero, suc, ◌+◌, ◌-◌, ◌*◌, ◌/◌, ◌%◌, ◌^◌, ◌≤◌, ◌<◌, min, max, bit_and, bit_or, bit_and-bitwise,
}
use mathlib.Core.Path.{◌≡◌, refl, ap, ap₂, ◌∙◌, sym}
use native.Mathlib.Nat.{
  pow-suc, one-le-pow, div-div-eq-div-mul, div-add-mod, mod-lt, mod-eq_of_lt, mul-add-mod_self_left,
}
use native.Mathlib.Omega.{arith}

bit_or_half : (a b : ℕ) → bit_or a b / 2 ≡ bit_or (a / 2) (b / 2)
bit_or_half a b = omega (arith, bit_or_step a b)

bit_or_parity : (a b : ℕ) → bit_or a b % 2 ≡ max (a % 2) (b % 2)
bit_or_parity a b = omega (arith, bit_or_step a b)

bit_and_half : (a m : ℕ) → bit_and a m / 2 ≡ bit_and (a / 2) (m / 2)
bit_and_half a m = omega (arith, bit_and_step a m)

bit_and_parity : (a m : ℕ) → bit_and a m % 2 ≡ min (a % 2) (m % 2)
bit_and_parity a m = omega (arith, bit_and_step a m)

bit_or_double : (a b : ℕ) → bit_or (2 * a) (2 * b) ≡ 2 * bit_or a b
bit_or_double a b =
    omega (arith, bit_or_step (2 * a) (2 * b), ap₂ bit_or (double_half a) (double_half b))
  where
    double_half : (n : ℕ) → 2 * n / 2 ≡ n
    double_half n = omega arith

-- Induction on the binary digits of a number, from its half.
halved :
    (P : ℕ → Type 0) (n : ℕ) → P 0 → ((a : ℕ) → P (suc a / 2) → P (suc a)) → (a : ℕ) → a ≤ n → P a
halved P n base step zero h = base
halved P zero base step (suc a) h = absurd (omega arith)
halved P (suc n) base step (suc a) h = step a (halved P n base step (suc a / 2) (omega arith))

pub bit_or-zero : (a : ℕ) → bit_or a 0 ≡ a
bit_or-zero a =
    halved (λ t. bit_or t 0 ≡ t) a refl (λ t half. omega (arith, bit_or_step (suc t) 0, half)) a
      (omega arith)

pub bit_or_self : (a : ℕ) → bit_or a a ≡ a
bit_or_self a =
    halved (λ t. bit_or t t ≡ t) a refl (λ t half. omega (arith, bit_or_step (suc t) (suc t), half))
      a (omega arith)

pub zero-bit_and : (m : ℕ) → bit_and 0 m ≡ 0
zero-bit_and m = bit_and-bitwise 0 m

pub bit_and-zero : (a : ℕ) → bit_and a 0 ≡ 0
bit_and-zero a =
    halved (λ t. bit_and t 0 ≡ 0) a refl (λ t half. omega (arith, bit_and_step (suc t) 0, half)) a
      (omega arith)

-- `&` with a mask distributes over `|`.
bit_and-bit_or_fuel :
    (n a b m : ℕ) → a ≤ n → b ≤ n → bit_and (bit_or a b) m ≡ bit_or (bit_and a m) (bit_and b m)
bit_and-bit_or_fuel zero a b m p q = ground (arith, zero-bit_and m)
bit_and-bit_or_fuel (suc n) a b m p q = omega (
  arith,
  bit_and_step (bit_or a b) m,
  bit_and_step a m,
  bit_and_step b m,
  bit_or_step (bit_and a m) (bit_and b m),
  bit_or_parity a b,
  ap (λ (t : ℕ). bit_and t (m / 2)) (bit_or_half a b),
  ap₂ bit_or (bit_and_half a m) (bit_and_half b m),
  bit_and_parity a m,
  bit_and_parity b m,
  bit_and-bit_or_fuel n (a / 2) (b / 2) (m / 2) (omega arith) (omega arith),
)

pub bit_and-bit_or : (a b m : ℕ) → bit_and (bit_or a b) m ≡ bit_or (bit_and a m) (bit_and b m)
bit_and-bit_or a b m = bit_and-bit_or_fuel (a + b) a b m (omega arith) (omega arith)

-- `(a | b) | (c | d)` in another order.
bit_or_interchange_fuel :
    (n a b c d : ℕ)
    → a ≤ n
    → b ≤ n
    → c ≤ n
    → d ≤ n
    → bit_or (bit_or a b) (bit_or c d) ≡ bit_or (bit_or a c) (bit_or b d)
bit_or_interchange_fuel zero a b c d p q r s = ground arith
bit_or_interchange_fuel (suc n) a b c d p q r s = omega (
  arith,
  bit_or_step (bit_or a b) (bit_or c d),
  bit_or_step (bit_or a c) (bit_or b d),
  ap₂ bit_or (bit_or_half a b) (bit_or_half c d),
  ap₂ bit_or (bit_or_half a c) (bit_or_half b d),
  bit_or_parity a b,
  bit_or_parity c d,
  bit_or_parity a c,
  bit_or_parity b d,
  bit_or_interchange_fuel n (a / 2) (b / 2) (c / 2) (d / 2) (omega arith) (omega arith)
      (omega arith) (omega arith),
)

pub bit_or_interchange :
    (a b c d : ℕ) → bit_or (bit_or a b) (bit_or c d) ≡ bit_or (bit_or a c) (bit_or b d)
bit_or_interchange a b c d =
    bit_or_interchange_fuel (a + b + c + d) a b c d (omega arith) (omega arith) (omega arith)
      (omega arith)

pub mul-pow-suc : (q k : ℕ) → q * 2 ^ suc k ≡ 2 * (q * 2 ^ k)
mul-pow-suc q k = omega (arith, ap (λ (t : ℕ). q * t) (pow-suc 2 k))

div-pow-suc : (a k : ℕ) → a / 2 ^ suc k ≡ a / 2 / 2 ^ k
div-pow-suc a k =
    ap (λ (t : ℕ). a / t) (omega (arith, pow-suc 2 k)) ∙ sym (div-div-eq-div-mul a 2 (2 ^ k))

-- The remainder by the next power of two, from the lowest digit.
mod-pow-suc : (a k : ℕ) → a % 2 ^ suc k ≡ 2 * (a / 2 % 2 ^ k) + a % 2
mod-pow-suc a k =
    ap (λ (t : ℕ). t % 2 ^ suc k) apart ∙ mul-add-mod_self_left (2 ^ suc k) _ _ ∙ mod-eq_of_lt low
  where
    apart : a ≡ 2 ^ suc k * (a / 2 / 2 ^ k) + (2 * (a / 2 % 2 ^ k) + a % 2)
    apart =
        omega
          (arith, ap (λ (t : ℕ). t * (a / 2 / 2 ^ k)) (pow-suc 2 k), div-add-mod (a / 2) (2 ^ k))

    low : 2 * (a / 2 % 2 ^ k) + a % 2 < 2 ^ suc k
    low = omega (arith, pow-suc 2 k, mod-lt (a / 2) {m = 2 ^ k} (one-le-pow k 2 (omega arith)))

-- `(q << k) | r` is a sum if `r` fits `k` bits.
pub bit_or_fields : (k high low : ℕ) → low < 2 ^ k → bit_or (high * 2 ^ k) low ≡ high * 2 ^ k + low
bit_or_fields zero high low below = ground (arith, bit_or-zero high)
bit_or_fields (suc k) high low below =
    let above = bit_or_fields k high (low / 2) (omega (arith, pow-suc 2 k)) in
    ground (arith, above, mul-pow-suc high k, bit_or_step (high * 2 ^ suc k) low)

pub bit_or-mul : (k a b : ℕ) → bit_or a b * 2 ^ k ≡ bit_or (a * 2 ^ k) (b * 2 ^ k)
bit_or-mul zero a b = ground arith
bit_or-mul (suc k) a b =
    mul-pow-suc (bit_or a b) k
    ∙ ap (λ (t : ℕ). 2 * t) (bit_or-mul k a b)
    ∙ sym (bit_or_double (a * 2 ^ k) (b * 2 ^ k))
    ∙ ap₂ bit_or (sym (mul-pow-suc a k)) (sym (mul-pow-suc b k))

pub bit_or-div : (k a b : ℕ) → bit_or a b / 2 ^ k ≡ bit_or (a / 2 ^ k) (b / 2 ^ k)
bit_or-div zero a b = ground arith
bit_or-div (suc k) a b =
    div-pow-suc (bit_or a b) k
    ∙ ap (λ (t : ℕ). t / 2 ^ k) (bit_or_half a b)
    ∙ bit_or-div k (a / 2) (b / 2)
    ∙ ap₂ bit_or (sym (div-pow-suc a k)) (sym (div-pow-suc b k))

pub bit_or-mod : (k a b : ℕ) → bit_or a b % 2 ^ k ≡ bit_or (a % 2 ^ k) (b % 2 ^ k)
bit_or-mod zero a b = ground arith
bit_or-mod (suc k) a b = omega (
  arith,
  mod-pow-suc (bit_or a b) k,
  ap (λ (t : ℕ). t % 2 ^ k) (bit_or_half a b),
  bit_or-mod k (a / 2) (b / 2),
  bit_or_parity a b,
  bit_or_step (a % 2 ^ suc k) (b % 2 ^ suc k),
  mod-pow-suc a k,
  mod-pow-suc b k,
  ap₂ bit_or (upper a) (upper b),
)
  where
    upper : (n : ℕ) → n % 2 ^ suc k / 2 ≡ n / 2 % 2 ^ k
    upper n = omega (arith, mod-pow-suc n k)

-- `&` with a mask of `k` ones is the remainder by `2 ^ k`.
pub bit_and_mask : (k a : ℕ) → bit_and a (2 ^ k - 1) ≡ a % 2 ^ k
bit_and_mask zero a = ground (arith, bit_and-zero a)
bit_and_mask (suc k) a = omega (
  arith,
  bit_and_step a (2 ^ suc k - 1),
  pow-suc 2 k,
  one-le-pow k 2,
  mod-pow-suc a k,
  ap (λ (t : ℕ). bit_and (a / 2) t) half_mask,
  bit_and_mask k (a / 2),
)
  where
    half_mask : (2 ^ suc k - 1) / 2 ≡ 2 ^ k - 1
    half_mask = omega (arith, pow-suc 2 k, one-le-pow k 2)
