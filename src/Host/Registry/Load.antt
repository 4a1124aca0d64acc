-- ===== src/Host/Registry/Load.antt =====
-- What `loadFile` keeps true of the registry.
use pression.Base.{
  ℕ, true, false, if◌then◌else◌, ◌≡◌, refl, ap, ◌∙◌, append-nil, append_assoc, Bool-cases, inl, inr,
  List, [], ◌∷◌, ◌++◌,
}
use pression.Host.Plugins.{Numbers, Plugin, is_good}
use pression.Host.Registry.{is_loaded, load_file}

module _ {fl : Numbers} where
  -- Every plugin has infos, and none has the first info's name of a plugin before it.
  abbrev pub IsWellFormed : List (Plugin fl) → List (Plugin fl) → Type 0
  IsWellFormed before [] = Unit {0}
  IsWellFormed before (plugin ∷ plugins) =
      (is_good fl plugin ≡ true)
      × (is_loaded plugin before ≡ false)
      × IsWellFormed (before ++ (plugin ∷ [])) plugins

  appended :
      (before plugins : List (Plugin fl)) (new : Plugin fl)
      → IsWellFormed before plugins
      → is_good fl new ≡ true
      → is_loaded new (before ++ plugins) ≡ false
      → IsWellFormed before (plugins ++ (new ∷ []))
  appended before [] new p good fresh = (good, rw append-nil at fresh, tt)
  appended before (plugin ∷ plugins) new p good fresh = (
    p.0,
    p.1,
    appended (before ++ (plugin ∷ [])) plugins new p.2 good
        (ap (λ t. is_loaded new t) (append_assoc before (plugin ∷ []) plugins) ∙ fresh),
  )

-- `loadFile` adds the plugin of a file behind the others, or leaves them as they are, as its result says;
-- it never adds a plugin without infos, nor one whose first info's name is that of a plugin's before it.
pub load_file-IsWellFormed :
    {fl : Numbers} (open_plugin : List ℕ → Plugin fl) (file : List ℕ) (plugins : List (Plugin fl))
    → IsWellFormed [] plugins
    → let (added, after) = load_file open_plugin file plugins in
      (after ≡ (if added then plugins ++ (open_plugin file ∷ []) else plugins))
      × IsWellFormed [] after
unfolding load_file
load_file-IsWellFormed {fl = fl} open_plugin file plugins well =
    elim (Bool-cases (is_good fl (open_plugin file))) [
      | inl good ↦ elim (Bool-cases (is_loaded (open_plugin file) plugins)) [
        | inl e ↦ rw (good, e) (refl, well)
        | inr e ↦ rw (good, e) (refl, appended [] plugins (open_plugin file) well good e)
      ]
      | inr bad ↦ rw bad (refl, well)
    ]
