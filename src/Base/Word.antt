-- ===== src/Base/Word.antt =====
-- Fixed-width words: the casts, the shifts of C, and single bits by their number.
use mathlib.Core.List.{List, [], ◌∷◌}
use Prim.Native.Nat.{ℕ, ◌-◌, ◌*◌, ◌/◌, ◌%◌, ◌^◌, bit_and, bit_or}

abbrev pub u8 : ℕ → ℕ
u8 n = n % 2 ^ 8

abbrev pub u16 : ℕ → ℕ
u16 n = n % 2 ^ 16

abbrev pub u32 : ℕ → ℕ
u32 n = n % 2 ^ 32

abbrev pub u64 : ℕ → ℕ
u64 n = n % 2 ^ 64

-- A shift to the left of an unbounded number; where the operand is a word, a cast cuts it off.
infixl 75 ◌<<<◌ ◌>>>◌
abbrev pub ◌<<<◌ : ℕ → ℕ → ℕ
x <<< k = x * 2 ^ k

abbrev pub ◌>>>◌ : ℕ → ℕ → ℕ
x >>> k = x / 2 ^ k

-- `LB_BITn` of lunchbox, counted from 1, and `|` as an operator.
abbrev pub lb_bit : ℕ → ℕ
lb_bit n = 2 ^ (n - 1)

infixl 60 ◌|||◌
infixl 62 ◌&&&◌
abbrev pub ◌|||◌ : ℕ → ℕ → ℕ
a ||| b = bit_or a b

abbrev pub ◌&&&◌ : ℕ → ℕ → ℕ
a &&& b = bit_and a b

-- The union of single bits.
abbrev pub lb_bits : List ℕ → ℕ
lb_bits [] = 0
lb_bits (n ∷ ns) = bit_or (lb_bit n) (lb_bits ns)
