-- ===== src/Host/Instance.antt =====
-- `PluginInstance` of pression/pluginInstance.h, the state that compressors, decompressors, uploaders and
-- downloaders share.
use pression.Base.{
  ℕ, Bool, true, false, not, ◌&&◌, ◌==◌, if◌then◌else◌, List, [], ◌∷◌, ◌++◌, Option, none, some,
}
use pression.Host.Plugins.{Numbers, Info, Plugin}

-- `EQ_COMPRESSOR_INVALID` and `EQ_COMPRESSOR_NONE`.
abbrev pub invalid_name : ℕ
invalid_name = 0x0

abbrev pub none_name : ℕ
none_name = 0x1

-- The objects that plugins were asked for and that were given back to them, in the order of the calls.
pub record Ledger : Type 0 where
  pub new_compressors : List ℕ
  pub deleted_compressors : List ℕ
  pub new_decompressors : List ℕ
  pub deleted_decompressors : List ℕ

-- The object behind a pointer, if there is one.
unfoldable pub object_list : Option ℕ → List ℕ
object_list none = []
object_list (some object) = object ∷ []

unfoldable pub note_new_compressor : Option ℕ → Ledger → Ledger
unfolding object_list
note_new_compressor object l = record l {
  new_compressors = l.new_compressors ++ object_list object;
}

unfoldable pub note_deleted_compressor : Option ℕ → Ledger → Ledger
unfolding object_list
note_deleted_compressor object l = record l {
  deleted_compressors = l.deleted_compressors ++ object_list object;
}

unfoldable pub note_new_decompressor : Option ℕ → Ledger → Ledger
unfolding object_list
note_new_decompressor object l = record l {
  new_decompressors = l.new_decompressors ++ object_list object;
}

unfoldable pub note_deleted_decompressor : Option ℕ → Ledger → Ledger
unfolding object_list
note_deleted_decompressor object l = record l {
  deleted_decompressors = l.deleted_decompressors ++ object_list object;
}

abbrev pub empty_ledger : Ledger
empty_ledger = record {
  new_compressors = [];
  deleted_compressors = [];
  new_decompressors = [];
  deleted_decompressors = [];
}

unfoldable pub is_some {ℓ} : {A : Type ℓ} → Option A → Bool
is_some none = false
is_some (some a) = true

module _ (fl : Numbers) where
  -- `plugin`, `instance` and `info`; `none` is the null pointer, and the info that is cleared. The plugins'
  -- functions that allocate are parameters, and the ledger records what was allocated and deleted.
  pub record Instance : Type 0 where
    pub plugin : Option (Plugin fl)
    pub object : Option ℕ
    pub info : Option (Info fl)
    pub ledger : Ledger

  -- The constructor.
  unfoldable pub fresh : Instance
  fresh = record { plugin = none; object = none; info = none; ledger = empty_ledger }

  -- `info.name`; the info is 0 when it is cleared.
  unfoldable pub name_of : Option (Info fl) → ℕ
  name_of none = 0
  name_of (some info) = info.name

  -- `isGood`.
  unfoldable pub is_good_instance : Instance → Bool
  unfolding name_of is_some
  is_good_instance st =
      is_some st.plugin
      && not (name_of st.info == invalid_name)
      && not (name_of st.info == none_name)

  -- `clear`.
  unfoldable pub clear_instance : Instance → Instance
  clear_instance st = record st { plugin = none; object = none; info = none }

  -- `clear` of decompressors, uploaders and downloaders alike: `deleteDecompressor`, and the above.
  unfoldable pub clear_decompressor : Instance → Instance
  unfolding clear_instance is_some note_deleted_decompressor
  clear_decompressor st =
      if is_some st.plugin && is_some st.object
      then clear_instance (record st { ledger = note_deleted_decompressor st.object st.ledger })
      else clear_instance st
