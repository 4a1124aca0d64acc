-- ===== src/Plugin/Codec/Borders.antt =====
-- Where the single precision of IEEE 754 divides an image.
use native.Mathlib.Nat.{mul-le-mul_right, one-le-pow, pow-le-pow_right, pow-suc}
use pression.Base.{ℕ, zero, suc, ◌+◌, ◌-◌, ◌*◌, ◌^◌, ◌≤◌, ◌<◌, ◌≡◌, sym, ap, ◌∙◌, arith, u64}
use pression.Plugin.Float.Binary.{
  one, of_uint, times, divided, to_uint, binary32, quotient, of_uint_mono, times_mono, to_uint_mono,
  quotient-exact, quotient-whole, product-exact, product-quotient,
}
use pression.Plugin.Codec.{first_of_chunk, start_index, chunk_size}
use pression.Plugin.Codec.RoundTrip.{border, IsDivision, chunk_size-border}

module _ (n m : ℕ) where
  -- The pixel at which the chunk `c` of `m` starts.
  abbrev pub first_of : ℕ → ℕ
  first_of c = to_uint (times (of_uint c) (quotient n m))

  first_of_mono : (c d : ℕ) → c ≤ d → first_of c ≤ first_of d
  first_of_mono c d h =
      to_uint_mono (times (of_uint c) (quotient n m)) (times (of_uint d) (quotient n m))
        (times_mono (of_uint c) (of_uint d) (quotient n m) (of_uint_mono c d h))

  first_of-zero : first_of 0 ≡ 0
  first_of-zero = product-exact 0 (quotient n m) 0 (omega arith) (omega arith) (omega arith)

  pub first_of_chunk-first_of :
      (c : ℕ) → n < 2 ^ 24 → first_of_chunk binary32 n (m * 4) c ≡ first_of c
  unfolding first_of_chunk
  first_of_chunk-first_of c small =
      ap (λ t. to_uint (times (of_uint c) (divided (of_uint t) (of_uint (m * 4))))) whole
    where
      whole : u64 (n * 4) ≡ n * 4
      whole = omega (arith, small)

  border-first_of :
      (c : ℕ) → n < 2 ^ 24 → first_of c ≤ 2 ^ 24 → border binary32 n (m * 4) c ≡ first_of c
  unfolding start_index
  border-first_of c small low = omega (arith, first_of_chunk-first_of c small, low)

  -- Any number of chunks divides the pixels up to the end of the last chunk.
  pub first_of-IsDivision :
      n < 2 ^ 24 → first_of m ≤ 2 ^ 24 → IsDivision binary32 n (m * 4) (first_of m) m
  first_of-IsDivision small low = record {
    first = border-first_of 0 small (rw first_of-zero (omega arith)) ∙ first_of-zero;
    last = border-first_of m small low;
    rising = λ c d p q.
        let dm : first_of d ≤ first_of m = first_of_mono d m q in
        let cd : first_of c ≤ first_of d = first_of_mono c d p in
        rw
          (
            border-first_of c small (omega (arith, dm, cd, low)),
            border-first_of d small (omega (arith, dm, low)),
          )
          cd;
  }

  -- The last chunk ends with the image, or one pixel before its end.
  pub first_of-last : n < 2 ^ 23 → 0 < m → m < 2 ^ 24 → (first_of m ≤ n) × (n ≤ first_of m + 1)
  first_of-last small pos few = product-quotient n m small pos few

-- Chunks of `q` pixels each start at the multiples of `q`.
pub first_of-whole :
    (q m c : ℕ) → m * q < 2 ^ 24 → m < 2 ^ 24 → 0 < m → c ≤ m → first_of (m * q) m c ≡ c * q
first_of-whole q m c small few pos h =
    product-exact c (quotient (m * q) m) (c * q) (omega (arith, h, few))
      (omega (arith, small, mul-le-mul_right q h))
      (ap (λ t. c * t) (quotient-whole q m small few pos) ∙ grind arith)

pub chunk_size-whole :
    (q m c : ℕ)
    → m * q < 2 ^ 24
    → m < 2 ^ 24
    → 0 < m
    → c < m
    → chunk_size binary32 (m * q) (m * 4) c ≡ q
chunk_size-whole q m c small few pos h =
    let all = first_of-whole q m m small few pos (omega arith) in
    let div = first_of-IsDivision (m * q) m small (omega (arith, all, small)) in
    let size =
      chunk_size-border binary32 (m * q) (m * 4) c
        (div.rising c (c + 1) (omega arith) (omega (arith, h))) in
    omega (arith, size, at c (omega (arith, h)), at (c + 1) (omega (arith, h)))
  where
    at : (i : ℕ) → i ≤ m → border binary32 (m * q) (m * 4) i ≡ i * q
    at i p =
        border-first_of (m * q) m i small
          (omega (arith, first_of-whole q m i small few pos p, mul-le-mul_right q p, small))
        ∙ first_of-whole q m i small few pos p

regroup : (n a b : ℕ) → a * b ≡ one → a * (n * b) ≡ n * one
regroup n a b h = grind (arith, ap (λ t. n * t) h)

pow-add : (a b : ℕ) → 2 ^ (a + b) ≡ 2 ^ a * 2 ^ b
pow-add a zero = ap (λ t. 2 ^ t) {y = a} (omega arith) ∙ omega arith
pow-add a (suc b) =
    ap (λ t. 2 ^ t) {y = suc (a + b)} (omega arith)
    ∙ pow-suc 2 (a + b)
    ∙ ap (λ t. t * 2) (pow-add a b)
    ∙ grind (arith, ap (λ t. 2 ^ a * t) (pow-suc 2 b))

-- A power of two chunks ends with the image.
pub first_of-power : (n j : ℕ) → n < 2 ^ 24 → j < 24 → first_of n (2 ^ j) (2 ^ j) ≡ n
first_of-power n j small low = product-exact (2 ^ j) (quotient n (2 ^ j)) n few small (
    ap (λ t. 2 ^ j * t)
      (quotient-exact n (2 ^ j) (149 - j) small few (one-le-pow j 2 (omega arith)) whole)
    ∙ regroup n (2 ^ j) (2 ^ (149 - j)) whole)
  where
    few : 2 ^ j < 2 ^ 24
    few =
        omega (arith, pow-le-pow_right {n = 2} (omega arith) {i = j} {j = 23} (omega (arith, low)))

    whole : 2 ^ j * 2 ^ (149 - j) ≡ one
    whole = sym (pow-add j (149 - j)) ∙ ap (λ t. 2 ^ t) {y = 149} (omega (arith, low))
