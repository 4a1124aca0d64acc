-- ===== src/Plugin/Float/Binary.antt =====
-- The single precision of IEEE 754, for numbers that are not negative, with rounding to the nearest. Numbers
-- above the largest are left out.
use native.Mathlib.Nat.{eq-or-lt_of_le, mul-le-mul_right}
use pression.Base.{
  ℕ, zero, suc, ◌+◌, ◌-◌, ◌*◌, ◌/◌, ◌^◌, ◌≤◌, ◌<◌, ◌≡◌, refl, sym, ap, ◌∙◌, arith, inl, inr,
}
use pression.Plugin.Float.{Float32, IsExact}
use pression.Plugin.Float.Round.{round, round_mono, round-exact, round-close}

-- Numbers count the smallest positive number, of which one is made of 2 ^ 149; there are 253 exponents above
-- the smallest.
abbrev pub one : ℕ
one = 2 ^ 149

abbrev pub exponents : ℕ
exponents = 253

unfoldable pub of_uint : ℕ → ℕ
of_uint n = round exponents (n * one) 1

unfoldable pub times : ℕ → ℕ → ℕ
times a b = round exponents (a * b) one

unfoldable pub divided : ℕ → ℕ → ℕ
divided a b = round exponents (a * one) b

unfoldable pub to_uint : ℕ → ℕ
to_uint a = a / one

abbrev pub binary32 : Float32
binary32 = record {
  Number = ℕ;
  of_uint = of_uint;
  times = times;
  divided = divided;
  to_uint = to_uint;
}

-- A whole number of at most 24 bits is a number.
pub of_uint-exact : (n : ℕ) → n < 2 ^ 24 → of_uint n ≡ n * one
unfolding of_uint
of_uint-exact n h = round-exact exponents 149 n (n * one) 1 (omega arith) h (omega arith)

pub of_uint_mono : (a b : ℕ) → a ≤ b → of_uint a ≤ of_uint b
unfolding of_uint
of_uint_mono a b h = round_mono exponents (a * one) (b * one) 1 (omega arith) (omega (arith, h))

pub times_mono : (a b c : ℕ) → a ≤ b → times a c ≤ times b c
unfolding times
times_mono a b c h = round_mono exponents (a * c) (b * c) one (omega arith) (mul-le-mul_right c h)

pub to_uint_mono : (a b : ℕ) → a ≤ b → to_uint a ≤ to_uint b
unfolding to_uint
to_uint_mono a b h = omega (arith, h)

-- So is its quadruple.
pub of_uint-quadruple : (n : ℕ) → n < 2 ^ 24 → of_uint (n * 4) ≡ n * 4 * one
unfolding of_uint
of_uint-quadruple n h =
    round-exact exponents 151 n (n * 4 * one) 1 (omega arith) h (omega arith) ∙ omega arith

-- The quotient of the quadruples of two numbers of at most 24 bits.
abbrev pub quotient : ℕ → ℕ → ℕ
quotient n m = divided (of_uint (n * 4)) (of_uint (m * 4))

regrouped : (n m p : ℕ) → m * p ≡ one → n * 4 * one * one ≡ n * p * (m * 4 * one)
regrouped n m p h = ap (λ t. n * 4 * one * t) (sym h) ∙ grind arith

-- It is exact if the divisor is a power of two.
pub quotient-exact :
    (n m k : ℕ) → n < 2 ^ 24 → m < 2 ^ 24 → 0 < m → m * 2 ^ k ≡ one → quotient n m ≡ n * 2 ^ k
unfolding divided
quotient-exact n m k hn hm pos h =
    rw (of_uint-quadruple n hn, of_uint-quadruple m hm)
      (round-exact exponents k n (n * 4 * one * one) (m * 4 * one) (omega (arith, pos)) hn
        (regrouped n m (2 ^ k) h))

regrouped_whole : (q m o : ℕ) → m * q * 4 * o * o ≡ q * o * (m * 4 * o)
regrouped_whole q m o = grind arith

-- It is exact if it is a whole number.
pub quotient-whole : (q m : ℕ) → m * q < 2 ^ 24 → m < 2 ^ 24 → 0 < m → quotient (m * q) m ≡ q * one
unfolding divided
quotient-whole q m hn hm pos =
    rw (of_uint-quadruple (m * q) hn, of_uint-quadruple m hm)
      (round-exact exponents 149 q (m * q * 4 * one * one) (m * 4 * one) (omega (arith, pos))
        (omega (arith, hn, mul-le-mul_right q pos)) (regrouped_whole q m one))

-- Where a number times a quotient is a whole number, it is found, and cut off to itself.
pub product-exact :
    (m w n : ℕ) → m < 2 ^ 24 → n < 2 ^ 24 → m * w ≡ n * one → to_uint (times (of_uint m) w) ≡ n
unfolding times to_uint
product-exact m w n hm hn h = rw (of_uint-exact m hm) (
    rw (round-exact exponents 149 n (m * one * w) one (omega arith) hn (omega (arith, h)))
      (omega arith))

-- Where it is at most a half off a whole number, no more than the whole number is cut off to, and no less.
pub product-half :
    (m w n : ℕ)
    → m < 2 ^ 24
    → 2 * n + 1 < 2 ^ 24
    → (2 * (m * w) ≤ (2 * n + 1) * one → to_uint (times (of_uint m) w) ≤ n)
      × ((2 * n + 1) * one ≤ 2 * (m * w) → n ≤ to_uint (times (of_uint m) w))
unfolding times to_uint
product-half m w n hm hn = rw (of_uint-exact m hm) (
  (λ h. omega (
    arith,
    half,
    round_mono exponents (m * one * w) middle one (omega arith) (omega (arith, h)),
  )),
  (λ h. omega (
    arith,
    half,
    round_mono exponents middle (m * one * w) one (omega arith) (omega (arith, h)),
  )),
)
  where
    middle : ℕ
    middle = (2 * n + 1) * 2 ^ 148 * one

    half : round exponents middle one ≡ (2 * n + 1) * 2 ^ 148
    half = round-exact exponents 148 (2 * n + 1) middle one (omega arith) hn refl

-- The error of a quotient.
quotient-close :
    (n m : ℕ)
    → 0 < n
    → n < 2 ^ 24
    → 0 < m
    → m < 2 ^ 24
    → (2 ^ 24 * (m * quotient n m) ≤ (2 ^ 24 + 1) * (n * one))
      × ((2 ^ 24 - 1) * (n * one) ≤ 2 ^ 24 * (m * quotient n m))
unfolding divided
quotient-close n m pos hn pos' hm =
    let (le, ge) =
      round-close exponents (n * 4 * one * one) (m * 4 * one) (omega (arith, pos'))
        (omega (arith, pos, hm)) in
    rw (of_uint-quadruple n hn, of_uint-quadruple m hm) (omega (arith, le), omega (arith, ge))

quotient-none : (m : ℕ) → 0 < m → m < 2 ^ 24 → quotient 0 m ≡ 0
unfolding divided
quotient-none m pos hm =
    rw (of_uint-quadruple 0 (omega arith), of_uint-quadruple m hm)
      (round-exact exponents 0 0 (0 * 4 * one * one) (m * 4 * one) (omega (arith, pos))
        (omega arith) (omega arith))

-- A number below 2 ^ 23, divided and multiplied by the same number, is cut off to itself or to one less.
pub product-quotient :
    (n m : ℕ)
    → n < 2 ^ 23
    → 0 < m
    → m < 2 ^ 24
    → let back = to_uint (times (of_uint m) (quotient n m)) in (back ≤ n) × (n ≤ back + 1)
product-quotient zero m hn pos hm =
    let none : to_uint (times (of_uint m) (quotient 0 m)) ≡ 0 =
      product-exact m (quotient 0 m) 0 hm (omega arith)
        (ap (λ t. m * t) (quotient-none m pos hm) ∙ omega arith) in
    rw none (omega arith, omega arith)
product-quotient (suc n) m hn pos hm =
    let (le, ge) = quotient-close (suc n) m (omega arith) (omega (arith, hn)) pos hm in
    (
      (product-half m (quotient (suc n) m) (suc n) hm (omega (arith, hn))).0
          (omega (arith, le, hn)),
      omega (
        arith,
        (product-half m (quotient (suc n) m) n hm (omega (arith, hn))).1 (omega (arith, ge, hn)),
      ),
    )

largest : to_uint (times (of_uint 1) (quotient (2 ^ 24) 1)) ≡ 2 ^ 24
unfolding divided of_uint times to_uint round
largest = refl

-- The one chunk of a serial build.
pub binary32-IsExact : IsExact binary32
binary32-IsExact = record {
  none_of = λ n h. product-exact 0 (quotient n 1) 0 (omega arith) (omega arith) (omega arith);
  all_of = all_of;
}
  where
    all_of : (n : ℕ) → n ≤ 2 ^ 24 → to_uint (times (of_uint 1) (quotient n 1)) ≡ n
    all_of n h = elim (eq-or-lt_of_le h) [
      | inl same ↦ rw same largest
      | inr less ↦ product-exact 1 (quotient n 1) n (omega arith) less (
          ap (λ t. 1 * t) (quotient-exact n 1 149 less (omega arith) (omega arith) refl)
          ∙ omega arith)
    ]
