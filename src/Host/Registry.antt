-- ===== src/Host/Registry.antt =====
-- The registry of plugins, pression/pluginRegistry.cpp. Opening a dynamic library is a parameter: the
-- plugin that a file name gives. Searching directories and the environment is left out.
pub mod Find
pub mod Load
pub mod Traverse
use pression.Base.{
  ℕ, Bool, true, false, ◌==◌, if◌then◌else◌, List, [], ◌∷◌, ◌++◌, Option, none, some,
}
use pression.Host.Plugins.{
  Numbers, Info, Plugin, is_good, VisitorResult, terminate, continue_traversal, prune, Visitor,
  on_result, accept_plugin,
}

-- `==` of the names of two front infos.
unfoldable pub is_same_front : Option ℕ → Option ℕ → Bool
is_same_front (some a) (some b) = a == b
is_same_front none b = false
is_same_front (some a) none = false

module _ {fl : Numbers} where
  -- `infos.front().name`; there is none without infos.
  unfoldable pub front_name : List (Info fl) → Option ℕ
  front_name [] = none
  front_name (info ∷ infos) = some info.name

  -- The loop of `loadFile` over the plugins that are there.
  unfoldable pub is_loaded : Plugin fl → List (Plugin fl) → Bool
  unfolding is_same_front front_name
  is_loaded plugin [] = false
  is_loaded plugin (other ∷ others) =
      let rest = is_loaded plugin others in
      if is_same_front (front_name plugin.infos) (front_name other.infos) then true else rest

  -- `loadFile`, with `_loadPlugin`: whether the plugin was added, and the plugins.
  unfoldable pub load_file :
      (List ℕ → Plugin fl) → List ℕ → List (Plugin fl) → Bool × List (Plugin fl)
  unfolding is_good is_loaded
  load_file open_plugin file plugins =
      let plugin = open_plugin file in
      let added : Bool × List (Plugin fl) = (true, plugins ++ (plugin ∷ [])) in
      if is_good fl plugin
      then (if is_loaded plugin plugins then (false, plugins) else added)
      else (false, plugins)

  module _ {S : Type 0} where
    -- `PluginRegistry::accept`, with its variable `result`.
    unfoldable pub accept_from :
        Visitor fl S → List (Plugin fl) → VisitorResult → S → VisitorResult × S
    unfolding on_result accept_plugin
    accept_from v [] result s = (result, s)
    accept_from v (plugin ∷ plugins) result s =
        on_result (accept_plugin v plugin s) (λ t. accept_from v plugins result t)
          (λ t. accept_from v plugins prune t)

    unfoldable pub accept : Visitor fl S → List (Plugin fl) → S → VisitorResult × S
    unfolding accept_from
    accept v plugins s = accept_from v plugins continue_traversal s

  -- `Finder`, whose state is its member `plugin`.
  unfoldable pub finder : ℕ → Visitor fl (Option (Plugin fl))
  finder name = record {
    visit = λ candidate found. (continue_traversal, found);
    visit_info = λ candidate info found.
        if info.name == name then (terminate, some candidate) else (continue_traversal, found);
  }

  -- `findPlugin`.
  unfoldable pub find_plugin : ℕ → List (Plugin fl) → Option (Plugin fl)
  unfolding accept finder
  find_plugin name plugins = (accept (finder name) plugins none).1
