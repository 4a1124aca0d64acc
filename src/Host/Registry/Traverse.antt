-- ===== src/Host/Registry/Traverse.antt =====
-- What the traversal by a visitor amounts to that never ends it early, such as those that search for the
-- best info.
use pression.Base.{◌≡◌, refl, ap, List, [], ◌∷◌, ◌++◌}
use pression.Host.Plugins.{
  Numbers, Info, Plugin, continue_traversal, Visitor, on_result, accept_infos, accept_plugin,
}
use pression.Host.Registry.{accept_from, accept}

module _ {fl : Numbers} where
  -- The infos with the plugin that they are of.
  abbrev pub infos_with : Plugin fl → List (Info fl) → List (Plugin fl × Info fl)
  infos_with plugin [] = []
  infos_with plugin (info ∷ infos) = (plugin, info) ∷ infos_with plugin infos

  abbrev pub offers : List (Plugin fl) → List (Plugin fl × Info fl)
  offers [] = []
  offers (plugin ∷ plugins) = infos_with plugin plugin.infos ++ offers plugins

module _ {fl : Numbers} {S : Type 0} (step : Plugin fl → Info fl → S → S) where
  abbrev pub traverser : Visitor fl S
  traverser = record {
    visit = λ plugin s. (continue_traversal, s);
    visit_info = λ plugin info s. (continue_traversal, step plugin info s);
  }

  -- The visits, one after the other.
  abbrev pub traverse : List (Plugin fl × Info fl) → S → S
  traverse [] s = s
  traverse ((plugin, info) ∷ rest) s = traverse rest (step plugin info s)

  traverse-append :
      (xs ys : List (Plugin fl × Info fl)) (s : S)
      → traverse (xs ++ ys) s ≡ traverse ys (traverse xs s)
  traverse-append [] ys s = refl
  traverse-append ((plugin, info) ∷ xs) ys s = traverse-append xs ys (step plugin info s)

  accept_infos-traverse :
      (plugin : Plugin fl) (infos : List (Info fl)) (s : S)
      → accept_infos traverser plugin infos continue_traversal s
        ≡ (continue_traversal, traverse (infos_with plugin infos) s)
  unfolding accept_infos on_result
  accept_infos-traverse plugin [] s = refl
  accept_infos-traverse plugin (info ∷ infos) s =
      accept_infos-traverse plugin infos (step plugin info s)

  accept_from-traverse :
      (plugins : List (Plugin fl)) (s : S)
      → accept_from traverser plugins continue_traversal s
        ≡ (continue_traversal, traverse (offers plugins) s)
  unfolding accept_from accept_plugin on_result
  accept_from-traverse [] s = refl
  accept_from-traverse (plugin ∷ plugins) s =
      let visited = accept_infos-traverse plugin plugin.infos s in
      rw (visited, traverse-append (infos_with plugin plugin.infos) (offers plugins) s)
        (accept_from-traverse plugins (traverse (infos_with plugin plugin.infos) s))

  -- The traversal visits every info of every plugin, in order.
  pub accept-traverse :
      (plugins : List (Plugin fl)) (s : S)
      → (accept traverser plugins s).1 ≡ traverse (offers plugins) s
  unfolding accept
  accept-traverse plugins s = ap (λ r. r.1) (accept_from-traverse plugins s)
