-- ===== src/Host/Downloader.antt =====
-- The downloaders of the host library: pression/downloader.cpp. The entry point `isCompatible` of the plugins,
-- for a GL context, is a parameter.
pub mod Choose
pub mod Transfer
pub mod Setup
pub mod Supports
pub mod Balance
use pression.Base.{
  ℕ, Bool, true, false, not, ◌&&◌, ◌||◌, ◌==◌, leb, if◌then◌else◌, List, [], ◌∷◌, Option, none,
  some, bit_or,
}
use pression.Plugin.Dims.{has_flag, ignore_alpha_flag}
use pression.Host.Plugins.{Numbers, Info, Plugin, find_info, continue_traversal, Visitor}
use pression.Host.Registry.{accept, find_plugin}
use pression.Host.Instance.{
  none_name, note_new_decompressor, is_some, Instance, name_of, is_good_instance,
  clear_decompressor,
}
use pression.Host.Uploader.{has_all}

-- `EQ_COMPRESSOR_USE_ASYNC_DOWNLOAD`.
abbrev pub async_flag : ℕ
async_flag = 0x100

module _ (fl : Numbers) where
  -- What is wrong with a plugin for a GL context; without one, `none`, nothing is tested.
  unfoldable pub is_refused : Option (Plugin fl → ℕ → Bool) → Plugin fl → ℕ → Bool
  is_refused none plugin name = false
  is_refused (some is_compatible) plugin name = not (is_compatible plugin name)

  -- The end of `setup`, for the plugin that was found.
  unfoldable pub set_plugin :
      (Plugin fl → ℕ → Option ℕ)
      → Option (Plugin fl → ℕ → Bool)
      → ℕ
      → Option (Plugin fl)
      → Instance fl
      → Bool × Instance fl
  unfolding is_some is_refused note_new_decompressor
  set_plugin new_decompressor gl name none st = (false, st)
  set_plugin new_decompressor gl name (some plugin) st =
      let refused : Bool × Instance fl = (false, record st { plugin = some plugin }) in
      let object : Option ℕ = new_decompressor plugin name in
      let done : Bool × Instance fl = (
        is_some object,
        record st {
          plugin = some plugin;
          object = object;
          info = find_info fl name plugin.infos;
          ledger = note_new_decompressor object st.ledger;
        },
      ) in
      if is_refused gl plugin name then refused else done

  -- `setup` where assertions are off: the result, and the instance behind it.
  unfoldable pub setup :
      (Plugin fl → ℕ → Option ℕ)
      → Option (Plugin fl → ℕ → Bool)
      → List (Plugin fl)
      → ℕ
      → Instance fl
      → Bool × Instance fl
  unfolding set_plugin clear_decompressor find_plugin name_of
  setup new_decompressor gl plugins name st =
      let same : Bool × Instance fl = (true, st) in
      let cleared : Bool × Instance fl = (true, clear_decompressor fl st) in
      if name == name_of fl st.info
      then same
      else if leb name none_name
      then cleared
      else set_plugin new_decompressor gl name (find_plugin name plugins) (clear_decompressor fl st)

  -- `Downloader::isGood` and `Downloader::uses`.
  unfoldable pub is_good : Instance fl → Bool
  unfolding is_good_instance is_some
  is_good st = is_good_instance fl st && is_some st.object

  unfoldable pub uses : ℕ → Instance fl → Bool
  unfolding is_good name_of
  uses name st = is_good st && name_of fl st.info == name

  -- The parameters of `choose`.
  pub record Wish : Type 0 where
    pub internal_format : ℕ
    pub min_quality : fl.Number
    pub ignore_alpha : Bool
    pub capabilities : ℕ

  -- The conditions of `visit` on an info, but for its ratio and speed.
  unfoldable pub is_eligible : (Plugin fl → ℕ → Bool) → Wish → Plugin fl → Info fl → Bool
  unfolding has_all has_flag
  is_eligible is_compatible wish plugin info =
      has_all info.capabilities wish.capabilities
      && info.token_type == wish.internal_format
      && (fl.greater info.quality wish.min_quality || fl.equal info.quality wish.min_quality)
      && (wish.ignore_alpha || not (has_flag info.capabilities ignore_alpha_flag))
      && is_compatible plugin info.name

  -- `Finder`, whose state is the name, the ratio and the speed of its member `current`.
  pub record Candidate : Type 0 where
    pub name : ℕ
    pub ratio : fl.Number
    pub speed : fl.Number

  abbrev pub no_candidate : Candidate
  no_candidate = record { name = none_name; ratio = fl.largest; speed = fl.zero }

  abbrev pub candidate_of : Info fl → Candidate
  candidate_of info = record { name = info.name; ratio = info.ratio; speed = info.speed }

  -- The last conditions of `visit`: a smaller ratio, or the same ratio and a higher speed.
  unfoldable pub is_better : Candidate → Candidate → Bool
  is_better a b =
      fl.greater b.ratio a.ratio || (fl.equal b.ratio a.ratio && fl.greater a.speed b.speed)

  unfoldable pub visit_info :
      (Plugin fl → ℕ → Bool) → Wish → Plugin fl → Info fl → Candidate → Candidate
  unfolding is_eligible is_better
  visit_info is_compatible wish plugin info current =
      if is_eligible is_compatible wish plugin info && is_better (candidate_of info) current
      then candidate_of info
      else current

  unfoldable pub finder : (Plugin fl → ℕ → Bool) → Wish → Visitor fl Candidate
  unfolding visit_info
  finder is_compatible wish = record {
    visit = λ plugin current. (continue_traversal, current);
    visit_info = λ plugin info current.
        (continue_traversal, visit_info is_compatible wish plugin info current);
  }

  -- `Downloader::choose`.
  unfoldable pub choose : (Plugin fl → ℕ → Bool) → Wish → List (Plugin fl) → ℕ
  unfolding accept finder
  choose is_compatible wish plugins =
      (accept (finder is_compatible wish) plugins no_candidate).1.name

  -- `Downloader::setup` with a choice.
  unfoldable pub setup_choice :
      (Plugin fl → ℕ → Option ℕ)
      → (Plugin fl → ℕ → Bool)
      → List (Plugin fl)
      → Wish
      → Instance fl
      → Bool × Instance fl
  unfolding setup choose
  setup_choice new_decompressor is_compatible plugins wish st =
      setup new_decompressor (some is_compatible) plugins (choose is_compatible wish plugins) st

  -- `Downloader::supports`: input token, no alpha, and capabilities; `none` is the info that is cleared,
  -- behind `isGood`.
  unfoldable pub supports_info : ℕ → Bool → ℕ → Option (Info fl) → Bool
  unfolding has_all has_flag
  supports_info input no_alpha capabilities none = false
  supports_info input no_alpha capabilities (some info) =
      info.token_type == input
      && has_all info.capabilities capabilities
      && (no_alpha || not (has_flag info.capabilities ignore_alpha_flag))

  unfoldable pub supports : ℕ → Bool → ℕ → Instance fl → Bool
  unfolding is_good supports_info
  supports input no_alpha capabilities st =
      is_good st && supports_info input no_alpha capabilities st.info
