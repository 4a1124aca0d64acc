-- ===== src/Host/Uploader.antt =====
-- The uploaders of the host library: pression/uploader.cpp.
pub mod Choose
pub mod Supports
pub mod Balance
use pression.Base.{
  ℕ, Bool, true, false, ◌&&◌, ◌==◌, leb, if◌then◌else◌, List, [], ◌∷◌, Option, none, some, bit_and,
}
use pression.Host.Plugins.{Numbers, Info, Plugin, find_info, continue_traversal, Visitor}
use pression.Host.Registry.{accept, find_plugin}
use pression.Host.Instance.{
  none_name, note_new_compressor, is_some, Instance, name_of, is_good_instance, clear_decompressor,
}

-- `(a & b) == b`.
unfoldable pub has_all : ℕ → ℕ → Bool
has_all capabilities wanted = bit_and capabilities wanted == wanted

module _ (fl : Numbers) where
  -- The end of `setup`, for the plugin that was found.
  unfoldable pub set_plugin :
      (Plugin fl → ℕ → Option ℕ) → ℕ → Option (Plugin fl) → Instance fl → Bool × Instance fl
  unfolding is_some note_new_compressor
  set_plugin new_compressor name none st = (false, st)
  set_plugin new_compressor name (some plugin) st =
      let object : Option ℕ = new_compressor plugin name in
      (
        is_some object,
        record st {
          plugin = some plugin;
          object = object;
          info = find_info fl name plugin.infos;
          ledger = note_new_compressor object st.ledger;
        },
      )

  -- `setup`: the result, and the instance behind it.
  unfoldable pub setup :
      (Plugin fl → ℕ → Option ℕ) → List (Plugin fl) → ℕ → Instance fl → Bool × Instance fl
  unfolding set_plugin clear_decompressor find_plugin is_some name_of
  setup new_compressor plugins name st =
      let same : Bool × Instance fl = (true, st) in
      let cleared : Bool × Instance fl = (true, clear_decompressor fl st) in
      if is_some st.object && name == name_of fl st.info
      then same
      else if leb name none_name
      then cleared
      else set_plugin new_compressor name (find_plugin name plugins) (clear_decompressor fl st)

  -- `uses`.
  unfoldable pub uses : ℕ → Instance fl → Bool
  unfolding is_good_instance is_some name_of
  uses name st = is_good_instance fl st && is_some st.object && name_of fl st.info == name

  -- The parameters of `choose`.
  pub record Wish : Type 0 where
    pub external_format : ℕ
    pub internal_format : ℕ
    pub capabilities : ℕ

  -- What `visit` asks of an info, but for its speed: the entry point `isCompatible` of the plugins, for
  -- the GL context, is a parameter.
  unfoldable pub is_eligible : (Plugin fl → ℕ → Bool) → Wish → Plugin fl → Info fl → Bool
  unfolding has_all
  is_eligible is_compatible wish plugin info =
      has_all info.capabilities wish.capabilities
      && info.output_token_type == wish.external_format
      && info.token_type == wish.internal_format
      && is_compatible plugin info.name

  -- `Finder`, whose state is the name and the speed of its member `current`, which are all that is read of
  -- it.
  pub record Candidate : Type 0 where
    pub name : ℕ
    pub speed : fl.Number

  abbrev pub no_candidate : Candidate
  no_candidate = record { name = none_name; speed = fl.zero }

  unfoldable pub visit_info :
      (Plugin fl → ℕ → Bool) → Wish → Plugin fl → Info fl → Candidate → Candidate
  unfolding is_eligible
  visit_info is_compatible wish plugin info current =
      if is_eligible is_compatible wish plugin info && fl.greater info.speed current.speed
      then record { name = info.name; speed = info.speed }
      else current

  unfoldable pub finder : (Plugin fl → ℕ → Bool) → Wish → Visitor fl Candidate
  unfolding visit_info
  finder is_compatible wish = record {
    visit = λ plugin current. (continue_traversal, current);
    visit_info = λ plugin info current.
        (continue_traversal, visit_info is_compatible wish plugin info current);
  }

  -- `Uploader::choose`.
  unfoldable pub choose : (Plugin fl → ℕ → Bool) → Wish → List (Plugin fl) → ℕ
  unfolding accept finder
  choose is_compatible wish plugins =
      (accept (finder is_compatible wish) plugins no_candidate).1.name

  -- The test of `supports` behind `isGood`; `none` is the info that is cleared.
  unfoldable pub supports_info : Wish → Option (Info fl) → Bool
  unfolding has_all
  supports_info wish none = false
  supports_info wish (some info) =
      info.output_token_type == wish.external_format
      && has_all info.capabilities wish.capabilities
      && info.token_type == wish.internal_format

  unfoldable pub compatible_with : (Plugin fl → ℕ → Bool) → Option (Plugin fl) → ℕ → Bool
  compatible_with is_compatible none name = false
  compatible_with is_compatible (some plugin) name = is_compatible plugin name

  -- `Uploader::isGood`, for the GL context of `isCompatible`.
  unfoldable pub is_good : (Plugin fl → ℕ → Bool) → Instance fl → Bool
  unfolding is_good_instance is_some name_of compatible_with
  is_good is_compatible st =
      is_good_instance fl st
      && is_some st.object
      && compatible_with is_compatible st.plugin (name_of fl st.info)

  -- `Uploader::supports`.
  unfoldable pub supports : (Plugin fl → ℕ → Bool) → Wish → Instance fl → Bool
  unfolding is_good supports_info
  supports is_compatible wish st = is_good is_compatible st && supports_info wish st.info

  -- `Uploader::setup` with a choice.
  unfoldable pub setup_choice :
      (Plugin fl → ℕ → Option ℕ)
      → (Plugin fl → ℕ → Bool)
      → List (Plugin fl)
      → Wish
      → Instance fl
      → Bool × Instance fl
  unfolding setup choose
  setup_choice new_compressor is_compatible plugins wish st =
      setup new_compressor plugins (choose is_compatible wish plugins) st
