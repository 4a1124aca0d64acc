-- ===== src/Host/Decompressor.antt =====
-- The decompressors of the host library: pression/decompressor.cpp, and the results that they read,
-- pression/compressorResult.h.
pub mod Setup
pub mod Balance
use pression.Base.{
  ℕ, Bool, true, false, not, ◌&&◌, ◌||◌, ◌+◌, ◌==◌, leb, if◌then◌else◌, List, [], ◌∷◌, length,
  Option, none, some, u64,
}
use pression.Rle.{◌>>=◌}
use pression.Plugin.Dims.{Dims, data_1d_flag}
use pression.Host.Plugins.{Numbers, Info, Plugin, find_info}
use pression.Host.Registry.{find_plugin}
use pression.Host.Instance.{
  invalid_name, none_name, note_new_decompressor, is_some, Instance, name_of, is_good_instance,
  clear_decompressor,
}

-- `EQ_COMPRESSOR_AUTO`.
abbrev pub auto_name : ℕ
auto_name = 0xfffff

-- `CompressorResult`; a chunk is the bytes that it holds.
pub record Result : Type 0 where
  pub compressor : ℕ
  pub chunks : List (List ℕ)

-- The constructor without arguments.
unfoldable pub no_result : Result
no_result = record { compressor = invalid_name; chunks = [] }

-- `getSize`.
unfoldable pub add_sizes : List (List ℕ) → ℕ → ℕ
add_sizes [] size = size
add_sizes (chunk ∷ chunks) size = add_sizes chunks (u64 (size + length chunk))

unfoldable pub get_size : Result → ℕ
unfolding add_sizes
get_size result = add_sizes result.chunks 0

-- `isCompressed`.
unfoldable pub is_compressed : Result → Bool
is_compressed result =
    not (result.compressor == invalid_name)
    && not (result.compressor == none_name)
    && not (result.compressor == auto_name)

-- `std::vector::empty`.
unfoldable pub is_empty {ℓ} : {A : Type ℓ} → List A → Bool
is_empty [] = true
is_empty (x ∷ xs) = false

module _ (fl : Numbers) where
  -- `uses`, with `Decompressor::isGood`, which is that of the instance.
  unfoldable pub uses : ℕ → Instance fl → Bool
  unfolding is_good_instance name_of
  uses name st = is_good_instance fl st && name_of fl st.info == name

  -- The end of `setup`, for the plugin that was found.
  unfoldable pub set_plugin :
      (Plugin fl → ℕ → Option ℕ) → ℕ → Option (Plugin fl) → Instance fl → Bool × Instance fl
  unfolding note_new_decompressor
  set_plugin new_decompressor name none st = (false, st)
  set_plugin new_decompressor name (some plugin) st =
      let object : Option ℕ = new_decompressor plugin name in
      (
        true,
        record st {
          plugin = some plugin;
          object = object;
          info = find_info fl name plugin.infos;
          ledger = note_new_decompressor object st.ledger;
        },
      )

  -- `setup`: the result, and the instance behind it.
  unfoldable pub setup :
      (Plugin fl → ℕ → Option ℕ) → List (Plugin fl) → ℕ → Instance fl → Bool × Instance fl
  unfolding set_plugin clear_decompressor find_plugin name_of is_some
  setup new_decompressor plugins name st =
      let same : Bool × Instance fl = (true, st) in
      let cleared : Bool × Instance fl = (true, clear_decompressor fl st) in
      if is_some st.plugin && name_of fl st.info == name
      then same
      else if leb name none_name
      then cleared
      else set_plugin new_decompressor name (find_plugin name plugins) (clear_decompressor fl st)

  -- The entry point `decompress` of a plugin, with the object, the name, the inputs, what the output holds,
  -- the dimensions and the flags, to what the output holds; `none` is an access outside of it.
  abbrev pub Decompress : Type 0
  Decompress = Plugin fl → Option ℕ → ℕ → List (List ℕ) → List ℕ → Dims → ℕ → Option (List ℕ)

  -- `decompress` of inputs; without a plugin the null pointer is read.
  unfoldable pub decompress_inputs :
      Decompress → List (List ℕ) → List ℕ → Dims → ℕ → Instance fl → Option (List ℕ)
  unfolding name_of
  decompress_inputs call inputs out dims flags st = do
    plugin ← st.plugin
    call plugin st.object (name_of fl st.info) inputs out dims flags

  -- `decompress` of inputs to one dimension.
  unfoldable pub decompress_1d :
      Decompress → List (List ℕ) → List ℕ → Dims → Instance fl → Option (List ℕ)
  unfolding decompress_inputs
  decompress_1d call inputs out dims st = decompress_inputs call inputs out dims data_1d_flag st

  -- `decompress` of a result: what it returns, and what the output holds.
  unfoldable pub decompress :
      Decompress → Result → List ℕ → Dims → ℕ → Instance fl → Option (Bool × List ℕ)
  unfolding uses is_empty decompress_inputs
  decompress call input out dims flags st =
      if not (uses input.compressor st) || is_empty input.chunks
      then some (false, out)
      else do after ← decompress_inputs call input.chunks out dims flags st; some (true, after)
