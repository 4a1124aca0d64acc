-- ===== src/Data/Registry/Choose.antt =====
-- Which compressor is recommended.
use pression.Base.{Bool, true, false, ◌≡◌, refl, sym, ap, ◌∙◌, Bool-cases, inl, inr, List, [], ◌∷◌}
use pression.Base.Best
use pression.Base.Best.{best, best-kept, best-taken, best-IsBest}
use pression.Data.Registry.{
  Ratings, CompressorInfo, no_info, rate, first_rating, choose_from, choose,
}

module _ (fl : Ratings) where
  -- The variables `candidate` and `rating` of the search.
  abbrev pub Candidate : Type 0
  Candidate = CompressorInfo fl.Number × fl.Number

  abbrev pub is_eligible : CompressorInfo fl.Number → Bool
  is_eligible info = true

  abbrev pub offer : CompressorInfo fl.Number → Candidate
  offer info = (info, rate fl info)

  abbrev pub is_higher : Candidate → Candidate → Bool
  is_higher (info, rating) (other, bound) = fl.greater rating bound

  -- `>` on numbers that may be no numbers.
  pub record IsStrictOrder : Type 0 where
    pub irreflexive : (a : fl.Number) → fl.greater a a ≡ false
    pub transitive :
        (a b c : fl.Number) → fl.greater a b ≡ true → fl.greater b c ≡ true → fl.greater a c ≡ true

  -- A registered compressor with a rating above that of the start such that none is rated higher, or the
  -- start if no compressor is rated above it.
  abbrev pub IsHighest : List (CompressorInfo fl.Number) → Candidate → Candidate → Type 0
  IsHighest = Best.IsBest is_eligible offer is_higher

  choose_from-best :
      (infos : List (CompressorInfo fl.Number)) (info : CompressorInfo fl.Number)
      (rating : fl.Number)
      → choose_from fl infos info rating ≡ (best is_eligible offer is_higher infos (info, rating)).0
  unfolding choose_from
  choose_from-best [] info rating = unfold best in refl
  choose_from-best (new ∷ infos) info rating = elim (Bool-cases (fl.greater (rate fl new) rating)) [
    | inl e ↦ rw e (
        choose_from-best infos new (rate fl new)
        ∙ ap (λ c. c.0) (sym (best-taken is_eligible offer is_higher new infos (info, rating) e)))
    | inr e ↦ rw e (
        choose_from-best infos info rating
        ∙ ap (λ c. c.0) (sym (best-kept is_eligible offer is_higher new infos (info, rating) e)))
  ]

-- `choose` gives a registered compressor with a rating above that of the default one, such that no
-- registered compressor is rated higher; or, if no compressor is rated above the default, the
-- default info. All that is asked of the comparison of ratings is that it is a strict order.
pub choose-IsBest :
    (fl : Ratings) (infos : List (CompressorInfo fl.Number))
    → IsStrictOrder fl
    → (result : Candidate fl) × (choose fl infos ≡ result.0)
      × IsHighest fl infos (no_info fl, first_rating fl) result
unfolding choose
choose-IsBest fl infos order =
    let start : Candidate fl = (no_info fl, first_rating fl) in
    (
      best (is_eligible fl) (offer fl) (is_higher fl) infos start,
      choose_from-best fl infos (no_info fl) (first_rating fl),
      best-IsBest (is_eligible fl) (offer fl) (is_higher fl)
          (record {
            irreflexive = λ (a, rating). order.irreflexive rating;
            transitive = λ (a, p) (b, q) (c, r). order.transitive p q r;
          })
          infos start,
    )
