-- ===== src/Plugin/Float.antt =====
-- Single-precision arithmetic, which the plugins use to divide an image into chunks. It is not
-- the program's: its operations are parameters.
pub mod Round
pub mod Binary
use pression.Base.{ℕ, ◌*◌, ◌^◌, ◌≤◌, ◌≡◌}

pub record Float32 : Type 1 where
  pub Number : Type 0
  pub of_uint : ℕ → Number
  pub times : Number → Number → Number
  pub divided : Number → Number → Number
  -- The conversion to `uint64_t`, which cuts the fraction off.
  pub to_uint : Number → ℕ

-- What IEEE arithmetic gives for the one chunk of a serial build: a number of at most 24 bits is
-- represented exactly, so is its quadruple, and division by 4 and multiplication by 0 and 1 are
-- exact.
pub record IsExact (fl : Float32) : Type 0 where
  pub none_of :
      (n : ℕ)
      → n ≤ 2 ^ 24
      → fl.to_uint (fl.times (fl.of_uint 0) (fl.divided (fl.of_uint (n * 4)) (fl.of_uint 4))) ≡ 0
  pub all_of :
      (n : ℕ)
      → n ≤ 2 ^ 24
      → fl.to_uint (fl.times (fl.of_uint 1) (fl.divided (fl.of_uint (n * 4)) (fl.of_uint 4))) ≡ n
