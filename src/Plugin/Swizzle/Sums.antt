-- ===== src/Plugin/Swizzle/Sums.antt =====
-- Components that are added at their places make the same word as their union.
use pression.Base.{
  ℕ, ◌+◌, ◌*◌, ◌^◌, ◌<◌, ◌≡◌, ap, ◌∙◌, arith, bit_or, u8, u32, ◌<<<◌, ◌>>>◌, ◌|||◌, ◌&&&◌,
}
use pression.Base.Bits.{bit_or_fields}
use pression.Base.Linear.{Linear, linear_rules}

-- A component at bit `k`, above a word of `k` bits.
upper_field : (k a b : ℕ) → a < 2 ^ k → a + b * 2 ^ k ≡ bit_or (b * 2 ^ k) a
upper_field k a b h = omega (arith, bit_or_fields k b a h)

pub union3_bytes :
    (a b c : ℕ)
    → a < 2 ^ 8
    → b < 2 ^ 8
    → a + (b <<< 8) + (c <<< 16) ≡ ((c <<< 16) ||| ((b <<< 8) ||| a))
union3_bytes a b c p q =
    upper_field 16 (a + b * 2 ^ 8) c (omega arith)
    ∙ ap (λ t. bit_or (c * 2 ^ 16) t) (upper_field 8 a b p)

pub union4_bytes :
    (a b c d : ℕ)
    → a < 2 ^ 8
    → b < 2 ^ 8
    → c < 2 ^ 8
    → a + (b <<< 8) + (c <<< 16) + (d <<< 24) ≡ ((d <<< 24) ||| ((c <<< 16) ||| ((b <<< 8) ||| a)))
union4_bytes a b c d p q r =
    upper_field 24 (a + b * 2 ^ 8 + c * 2 ^ 16) d (omega arith)
    ∙ ap (λ t. bit_or (d * 2 ^ 24) t) (union3_bytes a b c p q)

pub union3_halves :
    (a b c : ℕ)
    → a < 2 ^ 16
    → b < 2 ^ 16
    → a + (b <<< 16) + (c <<< 32) ≡ ((c <<< 32) ||| ((b <<< 16) ||| a))
union3_halves a b c p q =
    upper_field 32 (a + b * 2 ^ 16) c (omega arith)
    ∙ ap (λ t. bit_or (c * 2 ^ 32) t) (upper_field 16 a b p)

pub union4_halves :
    (a b c d : ℕ)
    → a < 2 ^ 16
    → b < 2 ^ 16
    → c < 2 ^ 16
    → a + (b <<< 16) + (c <<< 32) + (d <<< 48)
      ≡ ((d <<< 48) ||| ((c <<< 32) ||| ((b <<< 16) ||| a)))
union4_halves a b c d p q r =
    upper_field 48 (a + b * 2 ^ 16 + c * 2 ^ 32) d (omega arith)
    ∙ ap (λ t. bit_or (d * 2 ^ 48) t) (union3_halves a b c p q)

-- The bytes of a word, put together again as a union.
unfoldable pub union4 : ℕ → ℕ
union4 x = u32 (
    (u8 ((x &&& 0xff000000) >>> 24) <<< 24)
    ||| ((u8 ((x &&& 0xff0000) >>> 16) <<< 16)
        ||| ((u8 ((x &&& 0xff00) >>> 8) <<< 8) ||| u8 (x &&& 0xff))))

pub union4-Linear : Linear union4
unfolding union4
union4-Linear = search linear_rules depth 14

unfoldable pub union3 : ℕ → ℕ
union3 x = u32 (
    (u8 ((x &&& 0xff0000) >>> 16) <<< 16)
    ||| ((u8 ((x &&& 0xff00) >>> 8) <<< 8) ||| u8 (x &&& 0xff)))

pub union3-Linear : Linear union3
unfolding union3
union3-Linear = search linear_rules depth 14
