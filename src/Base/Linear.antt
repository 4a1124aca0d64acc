-- ===== src/Base/Linear.antt =====
-- Maps on words that respect `|`. Such a map is determined by its values at the single bits, so
-- that two of them agree on all words below `2 ^ w` if they do at 0 and at the `w` bits.
use Prim.Native.Nat.{ℕ, zero, suc, ◌-◌, ◌*◌, ◌/◌, ◌%◌, ◌^◌, ◌<◌, bit_and, bit_or, compare, Ordering}
use mathlib.Core.Path.{◌≡◌, refl, ap, ap₂, ◌∙◌, sym}
use mathlib.Core.Bool.{Bool, true, false, ◌&&◌}
use native.Mathlib.Nat.{pow-suc}
use native.Mathlib.Decide.{dec_lt}
use native.Mathlib.Omega.{arith}
use pression.Base.Bits.{
  bit_and-bit_or, bit_or_self, bit_or_interchange, bit_or_fields, bit_or-mul, bit_or-div,
  bit_or-mod,
}

pub record Linear (f : ℕ → ℕ) : Type 0 where
  pub at_bit_or : (a b : ℕ) → f (bit_or a b) ≡ bit_or (f a) (f b)

pub id-Linear : Linear (λ x. x)
id-Linear = record { at_bit_or = λ a b. refl }

pub const-Linear : (c : ℕ) → Linear (λ x. c)
const-Linear c = record { at_bit_or = λ a b. sym (bit_or_self c) }

pub mask-Linear : (m : ℕ) {f : ℕ → ℕ} → Linear f → Linear (λ x. bit_and (f x) m)
mask-Linear m {f} l = record {
  at_bit_or = λ a b. ap (λ t. bit_and t m) (l.at_bit_or a b) ∙ bit_and-bit_or (f a) (f b) m;
}

pub left-Linear : (k : ℕ) {f : ℕ → ℕ} → Linear f → Linear (λ x. f x * 2 ^ k)
left-Linear k {f} l = record {
  at_bit_or = λ a b. ap (λ t. t * 2 ^ k) (l.at_bit_or a b) ∙ bit_or-mul k (f a) (f b);
}

pub right-Linear : (k : ℕ) {f : ℕ → ℕ} → Linear f → Linear (λ x. f x / 2 ^ k)
right-Linear k {f} l = record {
  at_bit_or = λ a b. ap (λ t. t / 2 ^ k) (l.at_bit_or a b) ∙ bit_or-div k (f a) (f b);
}

pub low-Linear : (k : ℕ) {f : ℕ → ℕ} → Linear f → Linear (λ x. f x % 2 ^ k)
low-Linear k {f} l = record {
  at_bit_or = λ a b. ap (λ t. t % 2 ^ k) (l.at_bit_or a b) ∙ bit_or-mod k (f a) (f b);
}

pub or-Linear : {f g : ℕ → ℕ} → Linear f → Linear g → Linear (λ x. bit_or (f x) (g x))
or-Linear {f} {g} l m = record {
  at_bit_or = λ a b.
      ap₂ bit_or (l.at_bit_or a b) (m.at_bit_or a b) ∙ bit_or_interchange (f a) (f b) (g a) (g b);
}

pub comp-Linear : {f g : ℕ → ℕ} → Linear f → Linear g → Linear (λ x. f (g x))
comp-Linear {f} {g} l m = record {
  at_bit_or = λ a b. ap f (m.at_bit_or a b) ∙ l.at_bit_or (g a) (g b);
}

pub ruleset linear_rules =
    (id-Linear, const-Linear, mask-Linear, left-Linear, right-Linear, low-Linear, or-Linear)

-- Do the maps agree at 0 and at the lowest `w` single bits?
unfoldable pub agree : ℕ → (ℕ → ℕ) → (ℕ → ℕ) → Bool
agree zero f g = elim (compare (f 0) (g 0)) [ Ordering.eq ↦ true | _ ↦ false ]
agree (suc w) f g =
    elim (compare (f (2 ^ w)) (g (2 ^ w))) [ Ordering.eq ↦ true | _ ↦ false ] && agree w f g

agree-zero : (f g : ℕ → ℕ) → agree 0 f g ≡ true → f 0 ≡ g 0
unfolding agree
agree-zero f g h = ground arith

agree-suc :
    (w : ℕ) (f g : ℕ → ℕ)
    → agree (suc w) f g ≡ true
    → (f (2 ^ w) ≡ g (2 ^ w)) × (agree w f g ≡ true)
unfolding agree
agree-suc w f g h = ground arith

pub Linear-ext :
    (w : ℕ) {f g : ℕ → ℕ}
    → Linear f
    → Linear g
    → agree w f g ≡ true
    → (x : ℕ) → x < 2 ^ w
    → f x ≡ g x
Linear-ext zero {f} {g} l m h x lt =
    let e : x ≡ 0 = omega arith in ap f e ∙ agree-zero f g h ∙ ap g (sym e)
Linear-ext (suc w) {f} {g} l m h x lt = elim (dec_lt x (2 ^ w)) [
  | yes p ↦ Linear-ext w l m (agree-suc w f g h).1 x p
  | no p ↦
      let apart : bit_or (2 ^ w) (x - 2 ^ w) ≡ x = top_bit p in
      let rest : f (x - 2 ^ w) ≡ g (x - 2 ^ w) =
        Linear-ext w l m (agree-suc w f g h).1 (x - 2 ^ w) (omega (arith, pow-suc 2 w)) in
      ap f (sym apart)
      ∙ l.at_bit_or _ _
      ∙ ap₂ bit_or (agree-suc w f g h).0 rest
      ∙ sym (m.at_bit_or _ _)
      ∙ ap g apart
]
  where
    top_bit : ¬ (x < 2 ^ w) → bit_or (2 ^ w) (x - 2 ^ w) ≡ x
    top_bit p =
        ap (λ (t : ℕ). bit_or t (x - 2 ^ w)) (omega arith)
        ∙ bit_or_fields w 1 (x - 2 ^ w) (omega (arith, pow-suc 2 w))
        ∙ omega arith
