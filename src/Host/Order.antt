-- ===== src/Host/Order.antt =====
-- What is asked of comparisons in single precision, of numbers that may be no numbers.
use pression.Base.{true, false, ◌≡◌}
use pression.Host.Plugins.{Numbers}

module _ (fl : Numbers) where
  open fl use {Number, greater, equal}

  -- `>` is a strict order.
  pub record IsStrictOrder : Type 0 where
    pub irreflexive : (a : Number) → greater a a ≡ false
    pub transitive : (a b c : Number) → greater a b ≡ true → greater b c ≡ true → greater a c ≡ true

  -- `==` goes along with it; a number that is no number is equal to none.
  pub record IsOrder : Type 0 where
    pub strict : IsStrictOrder
    pub equal_transitive : (a b c : Number) → equal a b ≡ true → equal b c ≡ true → equal a c ≡ true
    pub greater_equal :
        (a b c : Number) → greater a b ≡ true → equal b c ≡ true → greater a c ≡ true
    pub equal_greater :
        (a b c : Number) → equal a b ≡ true → greater b c ≡ true → greater a c ≡ true
