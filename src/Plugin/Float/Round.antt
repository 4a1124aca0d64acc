-- ===== src/Plugin/Float/Round.antt =====
-- Rounding of a fraction to the nearest number of 24 significant bits, ties to even, as IEEE 754 asks of
-- single precision. A number is a count of the smallest positive number, 2 ^ -149.
use native.Mathlib.Nat.{
  div-mul-le_self, lt-div-mul-add, lt_of_mul-lt-mul_right, mul-lt-mul_of_pos_right, eq-or-lt_of_le,
}
use pression.Base.Bits.{mul-pow-suc}
use pression.Base.{
  ℕ, zero, suc, ◌+◌, ◌-◌, ◌*◌, ◌/◌, ◌%◌, ◌^◌, ◌≤◌, ◌<◌, ◌≡◌, refl, sym, ap, ◌∙◌, arith, Bool, ◌&&◌,
  ◌==◌, ltb, if◌then◌else◌, Bool-cases, inl, inr, ◌⊎◌,
}

-- The whole number nearest to `num / den`.
unfoldable pub nearest : ℕ → ℕ → ℕ
nearest num den =
    let up = (2 * num + den) / (2 * den) in
    if up % 2 == 1 && up * (2 * den) == 2 * num + den then up - 1 else up

-- Below 2 ^ 24 every whole number is a number; from there on the half is rounded first, and so on for each of
-- the exponents, which are the fuel.
unfoldable pub round : ℕ → ℕ → ℕ → ℕ
unfolding nearest
round zero num den = nearest num den
round (suc exponents) num den =
    let halved = 2 * round exponents num (2 * den) in
    if ltb num (2 ^ 24 * den) then nearest num den else halved

module _ (den : ℕ) (pos : 0 < den) where
  -- The quotient that `nearest` starts from.
  abbrev up : ℕ → ℕ
  up num = (2 * num + den) / (2 * den)

  up-le : (num : ℕ) → up num * den * 2 ≤ 2 * num + den
  up-le num = grind (arith, div-mul-le_self (2 * num + den) (2 * den))

  up-gt : (num : ℕ) → 2 * num < up num * den * 2 + den
  up-gt num = grind (arith, lt-div-mul-add {a = 2 * num + den} {b = 2 * den} (omega arith))

  -- In a tie, the quotient is the upper of the two, which is not taken if it is odd.
  abbrev is_odd_tie : ℕ → Bool
  is_odd_tie num = up num % 2 == 1 && up num * (2 * den) == 2 * num + den

  nearest-cases :
      (num : ℕ)
      → (nearest num den ≡ up num)
        ⊎ ((nearest num den + 1 ≡ up num) × (up num % 2 ≡ 1) × (up num * den * 2 ≡ 2 * num + den))
  unfolding nearest
  nearest-cases num = elim (Bool-cases (is_odd_tie num)) [
    | inl e ↦ inr (rw e (ground (arith, e)), ground (arith, e), grind (arith, e))
    | inr e ↦ inl (rw e refl)
  ]

  pub nearest-le : (num : ℕ) → nearest num den * den * 2 ≤ 2 * num + den
  nearest-le num = elim (nearest-cases num) [
    | inl e ↦ rw e (up-le num)
    | inr (e, odd, tie) ↦ grind (arith, e, tie)
  ]

  pub nearest-ge : (num : ℕ) → 2 * num ≤ nearest num den * den * 2 + den
  nearest-ge num = elim (nearest-cases num) [
    | inl e ↦ rw e (omega (arith, up-gt num))
    | inr (e, odd, tie) ↦ grind (arith, e, tie)
  ]

  up_mono : (a b : ℕ) → a ≤ b → up a ≤ up b
  up_mono a b h =
      let close : up a < up b + 1 =
        lt_of_mul-lt-mul_right (den * 2) (grind (arith, up-le a, up-gt b, h)) in
      omega (arith, close)

  pub nearest_mono : (a b : ℕ) → a ≤ b → nearest a den ≤ nearest b den
  nearest_mono a b h = elim (eq-or-lt_of_le h) [
    | inl same ↦ rw same (omega arith)
    | inr less ↦ elim (nearest-cases b) [
      | inl f ↦ elim (nearest-cases a) [
        | inl e ↦ omega (arith, e, f, up_mono a b h)
        | inr (e, _, _) ↦ omega (arith, e, f, up_mono a b h)
      ]
      | inr (f, odd, tie) ↦
          let strict : up a < up b =
            lt_of_mul-lt-mul_right (den * 2) (grind (arith, up-le a, tie, less)) in
          elim (nearest-cases a) [
            | inl e ↦ omega (arith, e, f, strict)
            | inr (e, _, _) ↦ omega (arith, e, f, strict)
          ]
    ]
  ]

  -- A whole number is its nearest.
  pub nearest-exact : (v : ℕ) → nearest (v * den) den ≡ v
  nearest-exact v =
      let le : nearest (v * den) den < v + 1 =
        lt_of_mul-lt-mul_right (den * 2) (grind (arith, nearest-le (v * den), pos)) in
      let ge : v < nearest (v * den) den + 1 =
        lt_of_mul-lt-mul_right (den * 2) (grind (arith, nearest-ge (v * den), pos)) in
      omega (arith, le, ge)

  -- What is at least a whole number stays so.
  pub nearest-above : (v num : ℕ) → v * den ≤ num → v ≤ nearest num den
  nearest-above v num h = omega (arith, nearest-exact v, nearest_mono (v * den) num h)

  pub nearest-below : (v num : ℕ) → num ≤ v * den → nearest num den ≤ v
  nearest-below v num h = omega (arith, nearest-exact v, nearest_mono num (v * den) h)

small-or-large : (num den : ℕ) → (num < 2 ^ 24 * den) ⊎ (2 ^ 24 * den ≤ num)
small-or-large num den = elim (Bool-cases (ltb num (2 ^ 24 * den))) [
  | inl e ↦ inl (ground (arith, e))
  | inr e ↦ inr (ground (arith, e))
]

-- How `round` goes on.
round-small :
    (exponents num den : ℕ) → num < 2 ^ 24 * den → round (suc exponents) num den ≡ nearest num den
unfolding round
round-small exponents num den h = ground (arith, h)

round-large :
    (exponents num den : ℕ)
    → 2 ^ 24 * den ≤ num
    → round (suc exponents) num den ≡ 2 * round exponents num (2 * den)
unfolding round
round-large exponents num den h = ground (arith, h)

-- From 2 ^ 23 on, which has its 24 bits, and from 2 ^ 24 on.
round-above23 :
    (exponents num den : ℕ) → 0 < den → 2 ^ 23 * den ≤ num → 2 ^ 23 ≤ round exponents num den
round-above23 zero num den pos h = unfold round in nearest-above den pos (2 ^ 23) num h
round-above23 (suc exponents) num den pos h = elim (small-or-large num den) [
  | inl small ↦ rw (round-small exponents num den small) (nearest-above den pos (2 ^ 23) num h)
  | inr large ↦
      let half : 2 ^ 23 ≤ round exponents num (2 * den) =
        round-above23 exponents num (2 * den) (omega (arith, pos)) (omega (arith, large)) in
      rw (round-large exponents num den large) (omega (arith, half))
]

round-above24 :
    (exponents num den : ℕ) → 0 < den → 2 ^ 24 * den ≤ num → 2 ^ 24 ≤ round exponents num den
round-above24 zero num den pos h = unfold round in nearest-above den pos (2 ^ 24) num h
round-above24 (suc exponents) num den pos h =
    let half : 2 ^ 23 ≤ round exponents num (2 * den) =
      round-above23 exponents num (2 * den) (omega (arith, pos)) (omega (arith, h)) in
    rw (round-large exponents num den h) (omega (arith, half))

-- Rounding keeps the order.
pub round_mono :
    (exponents a b den : ℕ) → 0 < den → a ≤ b → round exponents a den ≤ round exponents b den
round_mono zero a b den pos h = unfold round in nearest_mono den pos a b h
round_mono (suc exponents) a b den pos h = elim (small-or-large b den) [
  | inl small ↦
      rw (round-small exponents a den (omega (arith, h, small)), round-small exponents b den small)
        (nearest_mono den pos a b h)
  | inr large ↦ elim (small-or-large a den) [
    | inl small ↦
        let low : nearest a den ≤ 2 ^ 24 =
          nearest-below den pos (2 ^ 24) a (omega (arith, small)) in
        rw (round-small exponents a den small)
          (omega (arith, low, round-above24 (suc exponents) b den pos large))
    | inr larger ↦
        let half : round exponents a (2 * den) ≤ round exponents b (2 * den) =
          round_mono exponents a b (2 * den) (omega (arith, pos)) h in
        rw (round-large exponents a den larger, round-large exponents b den large)
          (omega (arith, half))
  ]
]

moved : (v den : ℕ) → 2 * v * den ≡ v * (2 * den)
moved v den = grind arith

-- A number of at most 24 bits, then zeros, stays as it is.
pub round-exact :
    (exponents k m num den : ℕ)
    → 0 < den
    → m < 2 ^ 24
    → num ≡ m * 2 ^ k * den
    → round exponents num den ≡ m * 2 ^ k
round-exact zero k m num den pos short e = rw e (unfold round in nearest-exact den pos (m * 2 ^ k))
round-exact (suc exponents) zero m num den pos short e =
    round-small exponents num den (rw e (omega (arith, mul-lt-mul_of_pos_right short pos)))
    ∙ rw e (nearest-exact den pos (m * 2 ^ zero))
round-exact (suc exponents) (suc k) m num den pos short e = elim (small-or-large num den) [
  | inl small ↦ round-small exponents num den small ∙ rw e (nearest-exact den pos (m * 2 ^ suc k))
  | inr large ↦
      let half : round exponents num (2 * den) ≡ m * 2 ^ k =
        round-exact exponents k m num (2 * den) (omega (arith, pos)) short
          (e ∙ ap (λ t. t * den) (mul-pow-suc m k) ∙ moved (m * 2 ^ k) den) in
      round-large exponents num den large ∙ rw half (sym (mul-pow-suc m k))
]

-- The error is at most a half of the last of 24 bits.
nearest-close :
    (num den : ℕ)
    → 0 < den
    → 2 ^ 23 * den ≤ num
    → (2 ^ 24 * (nearest num den * den) ≤ (2 ^ 24 + 1) * num)
      × ((2 ^ 24 - 1) * num ≤ 2 ^ 24 * (nearest num den * den))
nearest-close num den pos h =
    (omega (arith, nearest-le den pos num, h), omega (arith, nearest-ge den pos num, h))

pub round-close :
    (exponents num den : ℕ)
    → 0 < den
    → 2 ^ 23 * den ≤ num
    → (2 ^ 24 * (round exponents num den * den) ≤ (2 ^ 24 + 1) * num)
      × ((2 ^ 24 - 1) * num ≤ 2 ^ 24 * (round exponents num den * den))
round-close zero num den pos h = unfold round in nearest-close num den pos h
round-close (suc exponents) num den pos h = elim (small-or-large num den) [
  | inl small ↦ rw (round-small exponents num den small) (nearest-close num den pos h)
  | inr large ↦
      let (le, ge) =
        round-close exponents num (2 * den) (omega (arith, pos)) (omega (arith, large)) in
      rw (round-large exponents num den large) (omega (arith, le), omega (arith, ge))
]
