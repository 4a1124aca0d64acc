-- ===== src/Host/Compressor.antt =====
-- The compressors of the host library: pression/compressor.cpp.
pub mod Choose
pub mod Setup
pub mod Results
pub mod Balance
use pression.Base.{
  ℕ, Bool, true, false, not, ◌&&◌, ◌||◌, ◌==◌, leb, if◌then◌else◌, List, [], ◌∷◌, Option, none,
  some,
}
use pression.Rle.{◌>>=◌}
use pression.Plugin.Dims.{has_flag}
use pression.Host.Plugins.{Numbers, Info, Plugin, find_info}
use pression.Host.Registry.{find_plugin}
use pression.Host.Instance.{
  none_name, Ledger, note_new_compressor, note_deleted_compressor, is_some, Instance, name_of,
  is_good_instance, clear_instance,
}

-- `EQ_COMPRESSOR_TRANSFER`.
abbrev pub transfer_flag : ℕ
transfer_flag = 0x10

module _ (fl : Numbers) where
  open fl use {Number, greater, one}

  -- The members `name` and `ratingAlpha` of `candidate` in `Compressor::choose`, which are all that is
  -- read of it.
  pub record Candidate : Type 0 where
    pub name : ℕ
    pub rating : Number

  -- The parameters of `choose`.
  pub record Wish : Type 0 where
    pub token_type : ℕ
    pub min_quality : Number
    pub ignore_alpha : Bool

  -- The test behind which an info is passed over.
  unfoldable pub is_passed_over : Wish → Info fl → Bool
  unfolding has_flag
  is_passed_over wish info =
      not (info.token_type == wish.token_type)
      || greater wish.min_quality info.quality
      || has_flag info.capabilities transfer_flag

  unfoldable pub rating_of : Wish → Info fl → Number
  rating_of wish info = if wish.ignore_alpha then info.rating_no_alpha else info.rating_alpha

  -- The inner loop, over the infos of a plugin, and the outer one.
  unfoldable pub choose_info : Wish → List (Info fl) → Candidate → Candidate
  unfolding is_passed_over rating_of
  choose_info wish [] candidate = candidate
  choose_info wish (info ∷ infos) candidate =
      let passed = choose_info wish infos candidate in
      let taken =
        choose_info wish infos (record { name = info.name; rating = rating_of wish info }) in
      if is_passed_over wish info
      then passed
      else if greater (rating_of wish info) candidate.rating
      then taken
      else passed

  unfoldable pub choose_plugin : Wish → List (Plugin fl) → Candidate → Candidate
  unfolding choose_info
  choose_plugin wish [] candidate = candidate
  choose_plugin wish (plugin ∷ plugins) candidate =
      choose_plugin wish plugins (choose_info wish plugin.infos candidate)

  abbrev pub no_candidate : Candidate
  no_candidate = record { name = none_name; rating = one }

  -- `Compressor::choose`.
  unfoldable pub choose : Wish → List (Plugin fl) → ℕ
  unfolding choose_plugin
  choose wish plugins = (choose_plugin wish plugins no_candidate).name

  -- `Compressor::isGood`.
  unfoldable pub is_good : Instance fl → Bool
  unfolding is_good_instance is_some
  is_good st = is_good_instance fl st && is_some st.object

  -- `Compressor::uses`.
  unfoldable pub uses : ℕ → Instance fl → Bool
  unfolding is_good name_of
  uses name st = is_good st && name_of fl st.info == name

  -- `clear` of the implementation.
  unfoldable pub clear : Instance fl → Instance fl
  unfolding clear_instance note_deleted_compressor
  clear st = clear_instance fl (record st { ledger = note_deleted_compressor st.object st.ledger })

  -- The end of `setup`, for the plugin that was found.
  unfoldable pub set_plugin :
      (Plugin fl → ℕ → Option ℕ) → ℕ → Option (Plugin fl) → Instance fl → Bool × Instance fl
  unfolding is_some note_new_compressor
  set_plugin new_compressor name none st = (false, st)
  set_plugin new_compressor name (some plugin) st =
      let object : Option ℕ = new_compressor plugin name in
      (
        is_some object,
        record st {
          plugin = some plugin;
          object = object;
          info = find_info fl name plugin.infos;
          ledger = note_new_compressor object st.ledger;
        },
      )

  -- `setup`: the result, and the instance behind it.
  unfoldable pub setup :
      (Plugin fl → ℕ → Option ℕ) → List (Plugin fl) → ℕ → Instance fl → Bool × Instance fl
  unfolding set_plugin clear find_plugin is_some name_of
  setup new_compressor plugins name st =
      let same : Bool × Instance fl = (true, st) in
      let cleared : Bool × Instance fl = (true, clear st) in
      if is_some st.object && name_of fl st.info == name
      then same
      else if leb name none_name
      then cleared
      else set_plugin new_compressor name (find_plugin name plugins) (clear st)

  -- `realloc`. A plugin is there if the compressor is good; what is allocated is for `info.name`.
  unfoldable pub new_object : (Plugin fl → ℕ → Option ℕ) → Option (Plugin fl) → ℕ → Option ℕ
  new_object new_compressor none name = none
  new_object new_compressor (some plugin) name = new_compressor plugin name

  unfoldable pub realloc : (Plugin fl → ℕ → Option ℕ) → Instance fl → Bool × Instance fl
  unfolding is_good new_object note_new_compressor note_deleted_compressor is_some name_of
  realloc new_compressor st =
      let object : Option ℕ = new_object new_compressor st.plugin (name_of fl st.info) in
      let ledger : Ledger =
        note_new_compressor object (note_deleted_compressor st.object st.ledger) in
      let renewed : Bool × Instance fl =
        (is_some object, record st { object = object; ledger = ledger }) in
      if is_good st then renewed else (false, st)

  -- `Compressor::setup` with a choice.
  unfoldable pub setup_choice :
      (Plugin fl → ℕ → Option ℕ) → List (Plugin fl) → Wish → Instance fl → Bool × Instance fl
  unfolding setup choose
  setup_choice new_compressor plugins wish st =
      setup new_compressor plugins (choose wish plugins) st
