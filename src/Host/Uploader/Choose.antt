-- ===== src/Host/Uploader/Choose.antt =====
-- Which uploader is chosen.
use pression.Base.{ℕ, Bool, ◌≡◌, refl, ap, ◌∙◌, List, [], ◌∷◌}
use pression.Host.Plugins.{Numbers, Info, Plugin}
use pression.Host.Order.{IsStrictOrder}
use pression.Base.Best
use pression.Base.Best.{best, best-IsBest}
use pression.Host.Registry.Traverse.{offers, traverse, accept-traverse}
use pression.Host.Uploader.{Wish, Candidate, is_eligible, no_candidate, visit_info, finder, choose}

module _ (fl : Numbers) (is_compatible : Plugin fl → ℕ → Bool) (wish : Wish fl) where
  abbrev pub eligible : Plugin fl × Info fl → Bool
  eligible (plugin, info) = is_eligible fl is_compatible wish plugin info

  abbrev pub offer : Plugin fl × Info fl → Candidate fl
  offer (plugin, info) = record { name = info.name; speed = info.speed }

  abbrev pub faster : Candidate fl → Candidate fl → Bool
  faster a b = fl.greater a.speed b.speed

  abbrev pub IsFastest : List (Plugin fl × Info fl) → Candidate fl → Candidate fl → Type 0
  IsFastest = Best.IsBest eligible offer faster

  traverse-best :
      (items : List (Plugin fl × Info fl)) (start : Candidate fl)
      → traverse (visit_info fl is_compatible wish) items start
        ≡ best eligible offer faster items start
  unfolding visit_info best
  traverse-best [] start = refl
  traverse-best ((plugin, info) ∷ items) start =
      traverse-best items (visit_info fl is_compatible wish plugin info start)

  pub choose-best :
      (plugins : List (Plugin fl))
      → choose fl is_compatible wish plugins
        ≡ (best eligible offer faster (offers plugins) (no_candidate fl)).name
  unfolding choose finder
  choose-best plugins =
      ap (λ c. c.name)
        (accept-traverse (visit_info fl is_compatible wish) plugins (no_candidate fl)
          ∙ traverse-best (offers plugins) (no_candidate fl))

-- `Uploader::choose` gives the name of an engine that has the wanted capabilities and formats and is
-- compatible, and is faster than 0, such that no other such engine is faster; or, if none is faster than 0,
-- EQ_COMPRESSOR_NONE. All that is asked of the comparison of speeds is that it is a strict order.
pub choose-IsFastest :
    (fl : Numbers) (is_compatible : Plugin fl → ℕ → Bool) (wish : Wish fl)
    (plugins : List (Plugin fl))
    → IsStrictOrder fl
    → (result : Candidate fl) × (choose fl is_compatible wish plugins ≡ result.name)
      × IsFastest fl is_compatible wish (offers plugins) (no_candidate fl) result
choose-IsFastest fl is_compatible wish plugins order = (
  best (eligible fl is_compatible wish) (offer fl is_compatible wish) (faster fl is_compatible wish)
      (offers plugins) (no_candidate fl),
  choose-best fl is_compatible wish plugins,
  best-IsBest (eligible fl is_compatible wish) (offer fl is_compatible wish)
      (faster fl is_compatible wish)
      (record {
        irreflexive = λ a. order.irreflexive a.speed;
        transitive = λ a b c. order.transitive a.speed b.speed c.speed;
      })
      (offers plugins) (no_candidate fl),
)
