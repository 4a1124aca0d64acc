-- ===== src/Plugin/Types.antt =====
-- The components of one pixel, with and without the alpha channel.
use pression.Base.{ℕ}

pub record Quad : Type 0 where
  pub one : ℕ
  pub two : ℕ
  pub three : ℕ
  pub four : ℕ

pub record Triple : Type 0 where
  pub one : ℕ
  pub two : ℕ
  pub three : ℕ

-- A swizzle class with its overloads for four and for three components.
pub record Swizzle4 : Type 0 where
  pub split : ℕ → Quad
  pub join : Quad → ℕ

pub record Swizzle3 : Type 0 where
  pub split : ℕ → Triple
  pub join : Triple → ℕ

-- The template arguments `swizzleFunc` and `alphaFunc`: with `UseAlpha` the overloads for four
-- components are used, with `NoAlpha` those for three.
pub data Format : Type 0 where
  use_alpha : Swizzle4 → Format
  no_alpha : Swizzle3 → Format

-- A pixel, split and joined again.
abbrev pub rejoin : Format → ℕ → ℕ
rejoin (use_alpha s) p = s.join (s.split p)
rejoin (no_alpha s) p = s.join (s.split p)
