-- ===== src/Host/Found.antt =====
-- The choice of an info from plugins of which no two engines have the same name, so that looking the name up, as
-- `setup` of pression/uploader.cpp and pression/downloader.cpp does, finds the info that was chosen.
use mathlib.Core.Path.{subst}
use pression.Base.{Bool, true, ◌≡◌, sym, inl, inr, List, [], ◌∷◌, some}
use pression.Base.Best
use pression.Base.Best.{best, best-IsOffered}
use pression.Host.Plugins.{Numbers, Info, Plugin, find_info}
use pression.Host.Registry.{find_plugin}

module _ {fl : Numbers} (plugins : List (Plugin fl)) where
  -- The info is the one that is found by its name, in the plugin that is found.
  abbrev pub IsFound : Plugin fl → Info fl → Type 0
  IsFound plugin info =
      (find_plugin info.name plugins ≡ some plugin)
      × (find_info fl info.name plugin.infos ≡ some info)

  -- Every info is: no name is used twice.
  abbrev pub AreFound : List (Plugin fl × Info fl) → Type 0
  AreFound [] = Unit {0}
  AreFound ((plugin, info) ∷ items) = IsFound plugin info × AreFound items

  -- What holds of the start and of whatever an eligible info offers that is found holds of the choice.
  pub best-found :
      {C : Type 0} (is_eligible : Plugin fl × Info fl → Bool) (offer : Plugin fl × Info fl → C)
      (better : C → C → Bool) (items : List (Plugin fl × Info fl)) (start : C) (P : C → Type 0)
      → AreFound items
      → P start
      → ((plugin : Plugin fl) (info : Info fl)
          → is_eligible (plugin, info) ≡ true
          → IsFound plugin info
          → P (offer (plugin, info)))
      → P (best is_eligible offer better items start)
  best-found {C = C} is_eligible offer better items start P found none each =
      elim (best-IsOffered is_eligible offer better items start) [
        | inl same ↦ subst P (sym same) none
        | inr member ↦ offered items _ found member
      ]
    where
      offered :
          (items : List (Plugin fl × Info fl)) (c : C)
          → AreFound items
          → Best.IsOffered is_eligible offer better c items
          → P c
      offered [] c found member = absurd member
      offered ((plugin, info) ∷ items) c found (inl (e, same)) =
          subst P (sym same) (each plugin info e found.0)
      offered ((plugin, info) ∷ items) c found (inr member) = offered items c found.1 member
