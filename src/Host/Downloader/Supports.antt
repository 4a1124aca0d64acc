-- ===== src/Host/Downloader/Supports.antt =====
-- A downloader that is set up with a choice supports what was wished for.
use mathlib.Core.Path.{subst}
use pression.Base.{
  ℕ, Bool, true, false, ◌||◌, ◌==◌, leb, ◌≡◌, refl, sym, arith, Bool-cases, Option-cases, inl, inr,
  List, Option, none, some,
}
use pression.Host.Plugins.{Numbers, Info, Plugin}
use pression.Host.Found.{IsFound, AreFound, best-found}
use pression.Host.Registry.{find_plugin}
use pression.Host.Registry.Traverse.{offers}
use pression.Host.Instance.{none_name, is_some, fresh, name_of, is_good_instance}
use pression.Host.Downloader.{
  Wish, is_eligible, is_better, no_candidate, choose, is_refused, set_plugin, setup, is_good,
  supports_info, supports, setup_choice,
}
use pression.Host.Downloader.Choose.{eligible, offer, choose-best}

module _ (fl : Numbers) (new_decompressor : Plugin fl → ℕ → Option ℕ)
    (is_compatible : Plugin fl → ℕ → Bool) (plugins : List (Plugin fl)) (wish : Wish fl) where
  -- A plugin is there and allocates an object for the name.
  abbrev pub allocates : ℕ → Option (Plugin fl) → Bool
  allocates name none = false
  allocates name (some plugin) = is_some (new_decompressor plugin name)

  -- What `setup` of a new downloader gives for a name.
  abbrev Outcome : ℕ → Type 0
  Outcome name =
      let (done, after) = setup fl new_decompressor (some is_compatible) plugins name (fresh fl) in
      let supported = supports fl wish.internal_format wish.ignore_alpha wish.capabilities after in
      (done ≡ (leb name none_name || supported))
      × (done ≡ (leb name none_name || allocates name (find_plugin name plugins)))

  -- For the name of an eligible info that is found by it.
  found-Outcome :
      (plugin : Plugin fl) (info : Info fl)
      → is_eligible fl is_compatible wish plugin info ≡ true
      → IsFound plugins plugin info
      → Outcome info.name
  unfolding setup supports set_plugin is_refused is_good is_good_instance is_some name_of
      supports_info is_eligible fresh
  found-Outcome plugin info e (p, q) = elim (Bool-cases (leb info.name none_name)) [
    | inl f ↦ elim (Bool-cases (info.name == name_of fl (fresh fl).info)) [
      | inl same ↦ rw (same, f) (refl, refl)
      | inr other ↦ rw (other, f) (refl, refl)
    ]
    | inr f ↦
        let other : (info.name == name_of fl (fresh fl).info) ≡ false = ground (arith, f) in
        let fine : is_compatible plugin info.name ≡ true = ground (arith, e) in
        elim (Option-cases (new_decompressor plugin info.name)) [
          | inl n ↦ rw (other, f, p, q, fine, n) (ground arith, refl)
          | inr (o, n) ↦ rw (other, f, p, q, fine, n) (ground (arith, e, f), refl)
        ]
  ]

  none-Outcome : Outcome none_name
  unfolding setup fresh name_of is_some
  none-Outcome = (refl, refl)

-- Setting up a new downloader with a choice, from plugins of which no two engines have the same name, succeeds exactly
-- if nothing was chosen or the downloader then supports what was wished for: the format, the alpha channel and the
-- capabilities; and exactly if nothing was chosen or the plugin of the choice allocates a downloader.
pub downloader_choice-supports :
    (fl : Numbers) (new_decompressor : Plugin fl → ℕ → Option ℕ)
    (is_compatible : Plugin fl → ℕ → Bool) (plugins : List (Plugin fl)) (wish : Wish fl)
    → AreFound plugins (offers plugins)
    → let (done, after) = setup_choice fl new_decompressor is_compatible plugins wish (fresh fl) in
      let supported = supports fl wish.internal_format wish.ignore_alpha wish.capabilities after in
      let name = choose fl is_compatible wish plugins in
      (done ≡ (leb name none_name || supported))
      × (done ≡ (
          leb name none_name
          || allocates fl new_decompressor is_compatible plugins wish name
              (find_plugin name plugins)))
unfolding setup_choice
downloader_choice-supports fl new_decompressor is_compatible plugins wish found =
    subst (Outcome fl new_decompressor is_compatible plugins wish)
      (sym (choose-best fl is_compatible wish plugins))
      (best-found plugins (eligible fl is_compatible wish) (offer fl is_compatible wish)
        (is_better fl) (offers plugins) (no_candidate fl)
        (λ c. Outcome fl new_decompressor is_compatible plugins wish c.name) found
        (none-Outcome fl new_decompressor is_compatible plugins wish)
        (found-Outcome fl new_decompressor is_compatible plugins wish))
