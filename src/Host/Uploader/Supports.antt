-- ===== src/Host/Uploader/Supports.antt =====
-- An uploader that is set up with a choice supports what was wished for.
use mathlib.Core.Path.{subst}
use pression.Base.{
  ℕ, Bool, true, false, ◌||◌, leb, ◌≡◌, refl, sym, arith, Bool-cases, Option-cases, inl, inr, List,
  Option, none, some,
}
use pression.Host.Plugins.{Numbers, Info, Plugin}
use pression.Host.Found.{IsFound, AreFound, best-found}
use pression.Host.Registry.{find_plugin}
use pression.Host.Registry.Traverse.{offers}
use pression.Host.Instance.{none_name, is_some, fresh, name_of, is_good_instance}
use pression.Host.Uploader.{
  Wish, is_eligible, no_candidate, choose, set_plugin, setup, compatible_with, is_good,
  supports_info, supports, setup_choice,
}
use pression.Host.Uploader.Choose.{eligible, offer, faster, choose-best}

module _ (fl : Numbers) (new_compressor : Plugin fl → ℕ → Option ℕ)
    (is_compatible : Plugin fl → ℕ → Bool) (plugins : List (Plugin fl)) (wish : Wish fl) where
  -- A plugin is there and allocates an object for the name.
  abbrev pub obtains : ℕ → Option (Plugin fl) → Bool
  obtains name none = false
  obtains name (some plugin) = is_some (new_compressor plugin name)

  -- What `setup` of a new uploader gives for a name.
  abbrev Outcome : ℕ → Type 0
  Outcome name =
      let (done, after) = setup fl new_compressor plugins name (fresh fl) in
      (done ≡ (leb name none_name || supports fl is_compatible wish after))
      × (done ≡ (leb name none_name || obtains name (find_plugin name plugins)))

  -- For the name of an eligible info that is found by it.
  found-Outcome :
      (plugin : Plugin fl) (info : Info fl)
      → is_eligible fl is_compatible wish plugin info ≡ true
      → IsFound plugins plugin info
      → Outcome info.name
  unfolding setup supports set_plugin is_good is_good_instance is_some name_of compatible_with
      supports_info is_eligible fresh
  found-Outcome plugin info e (p, q) = elim (Bool-cases (leb info.name none_name)) [
    | inl f ↦ rw f (refl, refl)
    | inr f ↦ elim (Option-cases (new_compressor plugin info.name)) [
      | inl n ↦ rw (f, p, q, n) (ground arith, refl)
      | inr (o, n) ↦ rw (f, p, q, n) (ground (arith, e, f), refl)
    ]
  ]

  none-Outcome : Outcome none_name
  unfolding setup fresh name_of is_some
  none-Outcome = (refl, refl)

-- Setting up a new uploader with a choice, from plugins of which no two engines have the same name, succeeds exactly
-- if nothing was chosen or the uploader then supports what was wished for: the formats, the capabilities and the GL
-- context; and exactly if nothing was chosen or the plugin of the choice allocates an uploader.
pub setup_choice-supports :
    (fl : Numbers) (new_compressor : Plugin fl → ℕ → Option ℕ)
    (is_compatible : Plugin fl → ℕ → Bool) (plugins : List (Plugin fl)) (wish : Wish fl)
    → AreFound plugins (offers plugins)
    → let (done, after) = setup_choice fl new_compressor is_compatible plugins wish (fresh fl) in
      let name = choose fl is_compatible wish plugins in
      (done ≡ (leb name none_name || supports fl is_compatible wish after))
      × (done ≡ (
          leb name none_name
          || obtains fl new_compressor is_compatible plugins wish name (find_plugin name plugins)))
unfolding setup_choice
setup_choice-supports fl new_compressor is_compatible plugins wish found =
    subst (Outcome fl new_compressor is_compatible plugins wish)
      (sym (choose-best fl is_compatible wish plugins))
      (best-found plugins (eligible fl is_compatible wish) (offer fl is_compatible wish)
        (faster fl is_compatible wish) (offers plugins) (no_candidate fl)
        (λ c. Outcome fl new_compressor is_compatible plugins wish c.name) found
        (none-Outcome fl new_compressor is_compatible plugins wish)
        (found-Outcome fl new_compressor is_compatible plugins wish))
