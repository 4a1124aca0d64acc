-- ===== src/Plugin/Codec/Order/Schedule.antt =====
-- Rounds of a loop that may be executed in any order, as `#pragma omp parallel for` allows. A round is a
-- function of the state that may fail.
use mathlib.Core.List.{Permᴰ}
use pression.Base.{◌≡◌, refl, sym, ap, ◌∙◌, arith, List, [], ◌∷◌, Option, none, some}
use pression.Rle.{◌>>=◌}

-- What a bind has gone through.
pub bind-some :
    {A B : Type 0} (o : Option A) (f : A → Option B) (b : B)
    → (o >>= f) ≡ some b
    → (a : A) × (o ≡ some a) × (f a ≡ some b)
bind-some none f b h = absurd (ground (arith, h))
bind-some (some a) f b h = (a, refl, h)

pub after_equal :
    {A B : Type 0} (f g : A → Option B) (o : Option A)
    → ((a : A) → f a ≡ g a)
    → (o >>= f) ≡ (o >>= g)
after_equal f g none h = refl
after_equal f g (some a) h = h a

module _ {I S : Type 0} (round : I → S → Option S) where
  -- The rounds, one after the other.
  unfoldable pub run : List I → S → Option S
  run [] s = some s
  run (i ∷ is) s = round i s >>= run is

  -- Two rounds may be exchanged.
  abbrev pub Commute : I → I → Type 0
  Commute i j = (s : S) → (round i s >>= round j) ≡ (round j s >>= round i)

  reassociate : (f g : S → Option S) (o : Option S) → (o >>= λ s. (f s >>= g)) ≡ ((o >>= f) >>= g)
  reassociate f g none = refl
  reassociate f g (some s) = refl

  -- If any two rounds may be exchanged, the order of the rounds does not matter.
  pub run-Perm :
      ((i j : I) → Commute i j) → {is js : List I} → Permᴰ is js → (s : S) → run is s ≡ run js s
  unfolding run
  run-Perm commute Permᴰ.nil s = refl
  run-Perm commute {is = i ∷ is} {js = j ∷ js} (Permᴰ.cons e p) s =
      after_equal (run is) (run js) (round i s) (run-Perm commute p)
      ∙ ap (λ k. round k s >>= run js) e
  run-Perm commute {is = i ∷ j ∷ is} {js = k ∷ l ∷ js} (Permᴰ.swap e f) s =
      reassociate (round j) (run is) (round i s)
      ∙ ap (λ o. o >>= run is) (commute i j s)
      ∙ sym (reassociate (round i) (run is) (round j s))
      ∙ ap (λ m. round m s >>= λ t. (round i t >>= run is)) f
      ∙ ap (λ m. round k s >>= λ t. (round m t >>= run is)) e
  run-Perm commute (Permᴰ.trans p q) s = run-Perm commute p s ∙ run-Perm commute q s
