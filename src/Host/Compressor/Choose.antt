-- ===== src/Host/Compressor/Choose.antt =====
-- Which compressor is chosen for a wish.
use pression.Base.{Bool, not, ◌≡◌, refl, sym, ap, ◌∙◌, Bool-cases, inl, inr, List, [], ◌∷◌, ◌++◌}
use pression.Host.Plugins.{Numbers, Info, Plugin}
use pression.Host.Order.{IsStrictOrder}
use pression.Base.Best
use pression.Base.Best.{best, best-append, best-IsBest}
use pression.Host.Compressor.{
  Candidate, Wish, is_passed_over, rating_of, choose_info, choose_plugin, no_candidate, choose,
}

module _ (fl : Numbers) where
  -- The infos of all plugins.
  abbrev pub all_infos : List (Plugin fl) → List (Info fl)
  all_infos [] = []
  all_infos (plugin ∷ plugins) = plugin.infos ++ all_infos plugins

  -- Which infos come into question, what they offer, and which offer is better.
  abbrev pub is_eligible : Wish fl → Info fl → Bool
  is_eligible wish info = not (is_passed_over fl wish info)

  abbrev pub offer : Wish fl → Info fl → Candidate fl
  offer wish info = record { name = info.name; rating = rating_of fl wish info }

  abbrev pub better : Candidate fl → Candidate fl → Bool
  better a b = fl.greater a.rating b.rating

  abbrev pub IsBest : Wish fl → List (Info fl) → Candidate fl → Candidate fl → Type 0
  IsBest wish = Best.IsBest (is_eligible wish) (offer wish) better

  pub choose_info-best :
      (wish : Wish fl) (infos : List (Info fl)) (start : Candidate fl)
      → choose_info fl wish infos start ≡ best (is_eligible wish) (offer wish) better infos start
  unfolding choose_info best
  choose_info-best wish [] start = refl
  choose_info-best wish (info ∷ infos) start = elim (Bool-cases (is_passed_over fl wish info)) [
    | inl p ↦ rw p (choose_info-best wish infos start)
    | inr p ↦ elim (Bool-cases (fl.greater (rating_of fl wish info) start.rating)) [
      | inl g ↦ rw (p, g) (choose_info-best wish infos (offer wish info))
      | inr g ↦ rw (p, g) (choose_info-best wish infos start)
    ]
  ]

  choose_plugin-best :
      (wish : Wish fl) (plugins : List (Plugin fl)) (start : Candidate fl)
      → choose_plugin fl wish plugins start
        ≡ best (is_eligible wish) (offer wish) better (all_infos plugins) start
  unfolding choose_plugin
  choose_plugin-best wish [] start = unfold best in refl
  choose_plugin-best wish (plugin ∷ plugins) start =
      choose_plugin-best wish plugins (choose_info fl wish plugin.infos start)
      ∙ ap (best (is_eligible wish) (offer wish) better (all_infos plugins))
          (choose_info-best wish plugin.infos start)
      ∙ sym (
          best-append (is_eligible wish) (offer wish) better plugin.infos (all_infos plugins) start)

-- `choose` gives the name of an engine of some plugin that takes the token type, has the quality and is no
-- transfer engine, with a rating above 1, such that no other such engine is rated higher; or, if no such
-- engine is rated above 1, EQ_COMPRESSOR_NONE. All that is asked of the comparison of ratings is that it is
-- a strict order.
pub choose_plugin-IsBest :
    (fl : Numbers) (wish : Wish fl) (plugins : List (Plugin fl))
    → IsStrictOrder fl
    → (result : Candidate fl) × (choose fl wish plugins ≡ result.name)
      × IsBest fl wish (all_infos fl plugins) (no_candidate fl) result
unfolding choose
choose_plugin-IsBest fl wish plugins order =
    let infos = all_infos fl plugins in
    (
      best (is_eligible fl wish) (offer fl wish) (better fl) infos (no_candidate fl),
      ap (λ c. c.name) (choose_plugin-best fl wish plugins (no_candidate fl)),
      best-IsBest (is_eligible fl wish) (offer fl wish) (better fl)
          (record {
            irreflexive = λ a. order.irreflexive a.rating;
            transitive = λ a b c. order.transitive a.rating b.rating c.rating;
          })
          infos (no_candidate fl),
    )
