-- ===== src/Host/Transfers.antt =====
-- The plugin of this repository in the eyes of downloaders and uploaders: its engines transfer no images, which
-- `isCompatible` of pression/compressor/compressor.cpp tells the host.
use pression.Base.{
  ℕ, ◌<◌, ◌≡◌, refl, ap, ◌∙◌, arith, Bool, true, false, not, ◌||◌, ◌==◌, leb, Bool-cases,
  Option-cases, inl, inr, List, [], ◌∷◌, Option, none, some,
}
use pression.Base.Best
use pression.Base.Best.{best, best-IsOffered}
use pression.Plugin.Engines.{Functions}
use pression.Plugin.Api
use pression.Plugin.Api.{search_functions, find_functions, or_else, front, is_tested}
use pression.Host.Plugins.{Numbers, Info, Plugin}
use pression.Host.Registry.{find_plugin}
use pression.Host.Registry.Traverse.{offers}
use pression.Host.Instance.{none_name, is_some, name_of, fresh}
use pression.Host.Ownership.{is_consistent}
use pression.Host.Downloader
use pression.Host.Downloader.{is_refused, uses}
use pression.Host.Downloader.Choose as Download
use pression.Host.Downloader.Setup.{obtains, downloader_setup}
use pression.Host.Uploader
use pression.Host.Uploader.Choose as Upload

-- No engine has a test for a GL context.
abbrev pub AreTestless : List Functions → Type 0
AreTestless [] = Unit {0}
AreTestless (f ∷ fs) = (f.is_compatible ≡ none) × AreTestless fs

-- The entry point, for the host; without a table, and with assertions off, nothing is compatible.
abbrev pub answer : Option Bool → Bool
answer none = false
answer (some b) = b

abbrev pub api_compatible : {fl : Numbers} → ℕ → Api.State → Plugin fl → ℕ → Bool
api_compatible gl s plugin name = answer (Api.is_compatible name gl s)

found-testless :
    (name gl : ℕ) (fs : List Functions) (other : Option Functions)
    → AreTestless fs
    → ((g : Functions) → other ≡ some g → g.is_compatible ≡ none)
    → (g : Functions) → or_else (search_functions name fs) other ≡ some g
    → g.is_compatible ≡ none
unfolding search_functions or_else
found-testless name gl [] other t h g e = h g e
found-testless name gl (f ∷ fs) other t h g e = elim (Bool-cases (f.name == name)) [
  | inl same ↦ ground (arith, e, same, t.0)
  | inr next ↦ found-testless name gl fs other t.1 h g (ground (arith, e, next))
]

front-testless :
    (fs : List Functions) (g : Functions)
    → AreTestless fs
    → front fs ≡ some g
    → g.is_compatible ≡ none
unfolding front
front-testless [] g t e = absurd (ground (arith, e))
front-testless (f ∷ fs) g t e = ground (arith, e, t.0)

api_incompatible :
    (s : Api.State) (fs : List Functions) (gl name : ℕ)
    → s.functions ≡ some fs
    → AreTestless fs
    → answer (Api.is_compatible name gl s) ≡ false
unfolding Api.is_compatible is_tested find_functions
api_incompatible s fs gl name table t =
    elim (Option-cases (or_else (search_functions name fs) (front fs))) [
      | inl e ↦ rw (table, e) refl
      | inr (g, e) ↦
          let testless : g.is_compatible ≡ none =
            found-testless name gl fs (front fs) t (λ f. front-testless fs f t) g e in
          rw (table, e, testless) refl
    ]

-- A search in which nothing is eligible ends where it started.
none_eligible :
    {A C : Type 0} (is_eligible : A → Bool) (offer : A → C) (better : C → C → Bool) (items : List A)
    (start : C)
    → ((a : A) → is_eligible a ≡ false)
    → best is_eligible offer better items start ≡ start
none_eligible {A = A} {C = C} is_eligible offer better items start h =
    elim (best-IsOffered is_eligible offer better items start) [
      | inl same ↦ same
      | inr member ↦ absurd (not_offered items _ member)
    ]
  where
    not_offered : (items : List A) (c : C) → Best.IsOffered is_eligible offer better c items → ⊥
    not_offered [] c member = member
    not_offered (a ∷ items) c (inl (e, _)) = ground (arith, e, h a)
    not_offered (a ∷ items) c (inr member) = not_offered items c member

module _ {fl : Numbers} (s : Api.State) (fs : List Functions) (gl : ℕ)
    (table : s.functions ≡ some fs) (testless : AreTestless fs) where
  obtains-nothing :
      (new : Plugin fl → ℕ → Option ℕ) (name : ℕ) (p : Option (Plugin fl))
      → obtains fl new (some (api_compatible gl s)) name p ≡ false
  unfolding is_refused
  obtains-nothing new name none = refl
  obtains-nothing new name (some p) = rw (api_incompatible s fs gl name table testless) refl

  setup-incompatible :
      (new : Plugin fl → ℕ → Option ℕ) (plugins : List (Plugin fl)) (name : ℕ)
      → none_name < name
      → (Downloader.setup fl new (some (api_compatible gl s)) plugins name (fresh fl)).0 ≡ false
  setup-incompatible new plugins name above =
      let (_, law) =
        downloader_setup fl new (some (api_compatible gl s)) plugins name (fresh fl) consistent
          held in
      law ∙ rw (large, unused, obtains-nothing new name (find_plugin name plugins)) refl
    where
      large : leb name none_name ≡ false
      large = ground arith

      consistent : is_consistent (fresh fl) ≡ true
      consistent = unfold is_consistent is_some fresh in refl

      other : (name == name_of fl none) ≡ false
      other = unfold name_of in ground arith

      held : (is_some (fresh fl).object || not (name == name_of fl (fresh fl).info)) ≡ true
      held = unfold fresh is_some in rw other refl

      unused : uses fl name (fresh fl) ≡ false
      unused = unfold uses fresh in ground (arith, other)

-- If the entry point `isCompatible` of this repository's plugin answers for the plugins, and none of its engines has a
-- test for GL contexts, as is the case for all that REGISTER_ENGINE registers: whatever is wished for, and for whatever
-- GL context, no downloader and no uploader is chosen, and setting up a new downloader for a name above
-- EQ_COMPRESSOR_NONE fails.
pub host_never_transfers :
    (fl : Numbers) (s : Api.State) (fs : List Functions) (gl name : ℕ) (plugins : List (Plugin fl))
    (new : Plugin fl → ℕ → Option ℕ) (download : Downloader.Wish fl) (upload : Uploader.Wish fl)
    → s.functions ≡ some fs
    → AreTestless fs
    → none_name < name
    → (Downloader.choose fl (api_compatible gl s) download plugins ≡ none_name)
      × (Uploader.choose fl (api_compatible gl s) upload plugins ≡ none_name)
      × ((Downloader.setup fl new (some (api_compatible gl s)) plugins name (fresh fl)).0 ≡ false)
host_never_transfers fl s fs gl name plugins new download upload table testless above = (
  Download.choose-best fl (api_compatible gl s) download plugins
      ∙ ap (λ (c : Downloader.Candidate fl). c.name)
          (none_eligible _ _ _ (offers plugins) _ not_downloaded),
  Upload.choose-best fl (api_compatible gl s) upload plugins
      ∙ ap (λ (c : Uploader.Candidate fl). c.name)
          (none_eligible _ _ _ (offers plugins) _ not_uploaded),
  setup-incompatible s fs gl table testless new plugins name above,
)
  where
    not_downloaded :
        (item : Plugin fl × Info fl)
        → Download.eligible fl (api_compatible gl s) download item ≡ false
    not_downloaded (p, info) =
        unfold Downloader.is_eligible in
        ground (arith, api_incompatible s fs gl info.name table testless)

    not_uploaded :
        (item : Plugin fl × Info fl) → Upload.eligible fl (api_compatible gl s) upload item ≡ false
    not_uploaded (p, info) =
        unfold Uploader.is_eligible in
        ground (arith, api_incompatible s fs gl info.name table testless)
