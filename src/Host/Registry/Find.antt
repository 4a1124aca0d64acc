-- ===== src/Host/Registry/Find.antt =====
-- What the traversal by a finder amounts to.
use pression.Base.{
  ℕ, true, ◌==◌, if◌then◌else◌, ◌≡◌, refl, sym, ◌∙◌, arith, Bool-cases, inl, inr, List, [], ◌∷◌,
  Option, none, some,
}
use pression.Host.Plugins.{
  Numbers, Info, Plugin, implements_type, find_info, terminate, continue_traversal, on_result,
  accept_infos, accept_plugin,
}
use pression.Host.Registry.{accept_from, accept, finder, find_plugin}

module _ {fl : Numbers} where
  -- The first plugin that implements the name.
  abbrev pub first_with : ℕ → List (Plugin fl) → Option (Plugin fl)
  first_with name [] = none
  first_with name (plugin ∷ plugins) =
      let rest = first_with name plugins in
      if implements_type fl name plugin.infos then some plugin else rest

  accept_infos-finder :
      (name : ℕ) (plugin : Plugin fl) (infos : List (Info fl)) (found : Option (Plugin fl))
      → accept_infos (finder name) plugin infos continue_traversal found ≡ (
          if implements_type fl name infos
          then (terminate, some plugin)
          else (continue_traversal, found))
  unfolding accept_infos on_result finder implements_type
  accept_infos-finder name plugin [] found = refl
  accept_infos-finder name plugin (info ∷ infos) found = elim (Bool-cases (info.name == name)) [
    | inl e ↦ rw e refl
    | inr e ↦ rw e (accept_infos-finder name plugin infos found)
  ]

  accept_from-finder :
      (name : ℕ) (plugins : List (Plugin fl))
      → (accept_from (finder name) plugins continue_traversal none).1 ≡ first_with name plugins
  unfolding accept_from accept_plugin on_result
  accept_from-finder name [] = refl
  accept_from-finder name (plugin ∷ plugins) =
      elim (Bool-cases (implements_type fl name plugin.infos)) [
        | inl e ↦ rw (visited, e) refl
        | inr e ↦ rw (visited, e) (accept_from-finder name plugins)
      ]
    where
      visited : accept_plugin (finder name) plugin none ≡ (
          if implements_type fl name plugin.infos
          then (terminate, some plugin)
          else (continue_traversal, none))
      visited = unfold finder in accept_infos-finder name plugin plugin.infos none

-- `findPlugin` gives the first plugin of the registry that implements the name, in the sense of
-- `implementsType`, and no plugin if none does.
pub find_plugin-first_with :
    {fl : Numbers} (name : ℕ) (plugins : List (Plugin fl))
    → find_plugin name plugins ≡ first_with name plugins
unfolding find_plugin accept
find_plugin-first_with name plugins = accept_from-finder name plugins

module _ {fl : Numbers} where
  find_info-implements_type :
      (name : ℕ) (infos : List (Info fl))
      → implements_type fl name infos ≡ true
      → (info : Info fl) × (find_info fl name infos ≡ some info) × (info.name ≡ name)
  unfolding implements_type find_info
  find_info-implements_type name [] h = absurd (ground (arith, h))
  find_info-implements_type name (info ∷ infos) h = elim (Bool-cases (info.name == name)) [
    | inl e ↦ (info, rw e refl, ground (arith, e))
    | inr e ↦
        let (found, p, q) = find_info-implements_type name infos (ground (arith, e, h)) in
        (found, rw e p, q)
  ]

  first_with-implements_type :
      (name : ℕ) (plugins : List (Plugin fl)) (p : Plugin fl)
      → first_with name plugins ≡ some p
      → implements_type fl name p.infos ≡ true
  first_with-implements_type name [] p h = absurd (ground (arith, h))
  first_with-implements_type name (plugin ∷ plugins) p h =
      elim (Bool-cases (implements_type fl name plugin.infos)) [
        | inl e ↦ ground (arith, e, h)
        | inr e ↦ first_with-implements_type name plugins p (ground (arith, e, h))
      ]

  -- A plugin that is found has an info of the name, which is found in turn.
  pub find_info-find_plugin :
      (name : ℕ) (plugins : List (Plugin fl)) (p : Plugin fl)
      → find_plugin name plugins ≡ some p
      → (info : Info fl) × (find_info fl name p.infos ≡ some info) × (info.name ≡ name)
  find_info-find_plugin name plugins p found = find_info-implements_type name p.infos (
      first_with-implements_type name plugins p (sym (find_plugin-first_with name plugins) ∙ found))
