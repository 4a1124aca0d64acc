-- ===== src/Host/Downloader/Choose.antt =====
-- Which downloader is chosen.
use pression.Base.{ℕ, Bool, true, false, ◌&&◌, ◌≡◌, refl, ap, ◌∙◌, arith, List, [], ◌∷◌}
use pression.Host.Plugins.{Numbers, Info, Plugin}
use pression.Host.Order.{IsOrder}
use pression.Base.Best
use pression.Base.Best.{best, best-IsBest}
use pression.Host.Registry.Traverse.{offers, traverse, accept-traverse}
use pression.Host.Downloader.{
  Wish, Candidate, candidate_of, is_better, is_eligible, no_candidate, visit_info, finder, choose,
}

module _ (fl : Numbers) (order : IsOrder fl) where
  is_better_irreflexive : (a : Candidate fl) → is_better fl a a ≡ false
  unfolding is_better
  is_better_irreflexive a =
      rw (order.strict.irreflexive a.ratio, order.strict.irreflexive a.speed)
        (both (fl.equal a.ratio a.ratio))
    where
      both : (b : Bool) → (b && false) ≡ false
      both true = refl
      both false = refl

  is_better_transitive :
      (a b c : Candidate fl)
      → is_better fl a b ≡ true
      → is_better fl b c ≡ true
      → is_better fl a c ≡ true
  unfolding is_better
  is_better_transitive a b c p q = ground (
    arith,
    order.strict.transitive c.ratio b.ratio a.ratio,
    order.strict.transitive a.speed b.speed c.speed,
    order.equal_transitive c.ratio b.ratio a.ratio,
    order.greater_equal c.ratio b.ratio a.ratio,
    order.equal_greater c.ratio b.ratio a.ratio,
  )

module _ (fl : Numbers) (is_compatible : Plugin fl → ℕ → Bool) (wish : Wish fl) where
  abbrev pub eligible : Plugin fl × Info fl → Bool
  eligible (plugin, info) = is_eligible fl is_compatible wish plugin info

  abbrev pub offer : Plugin fl × Info fl → Candidate fl
  offer (plugin, info) = candidate_of fl info

  abbrev pub IsSmallest : List (Plugin fl × Info fl) → Candidate fl → Candidate fl → Type 0
  IsSmallest = Best.IsBest eligible offer (is_better fl)

  traverse-best :
      (items : List (Plugin fl × Info fl)) (start : Candidate fl)
      → traverse (visit_info fl is_compatible wish) items start
        ≡ best eligible offer (is_better fl) items start
  unfolding visit_info best
  traverse-best [] start = refl
  traverse-best ((plugin, info) ∷ items) start =
      traverse-best items (visit_info fl is_compatible wish plugin info start)

  pub choose-best :
      (plugins : List (Plugin fl))
      → choose fl is_compatible wish plugins
        ≡ (best eligible offer (is_better fl) (offers plugins) (no_candidate fl)).name
  unfolding choose finder
  choose-best plugins =
      ap (λ c. c.name)
        (accept-traverse (visit_info fl is_compatible wish) plugins (no_candidate fl)
          ∙ traverse-best (offers plugins) (no_candidate fl))

-- `Downloader::choose` gives the name of an engine that meets the wish and is compatible, with a smaller ratio
-- than the largest number, or that ratio and a speed above 0, such that no other such engine has a smaller
-- ratio, nor the same ratio and a higher speed; or, if there is none, EQ_COMPRESSOR_NONE. All that is asked of
-- the comparisons is that `>` is a strict order which goes along with `==`.
pub choose-IsSmallest :
    (fl : Numbers) (is_compatible : Plugin fl → ℕ → Bool) (wish : Wish fl)
    (plugins : List (Plugin fl))
    → IsOrder fl
    → (result : Candidate fl) × (choose fl is_compatible wish plugins ≡ result.name)
      × IsSmallest fl is_compatible wish (offers plugins) (no_candidate fl) result
choose-IsSmallest fl is_compatible wish plugins order = (
  best (eligible fl is_compatible wish) (offer fl is_compatible wish) (is_better fl)
      (offers plugins) (no_candidate fl),
  choose-best fl is_compatible wish plugins,
  best-IsBest (eligible fl is_compatible wish) (offer fl is_compatible wish) (is_better fl)
      (record {
        irreflexive = is_better_irreflexive fl order;
        transitive = is_better_transitive fl order;
      })
      (offers plugins) (no_candidate fl),
)
