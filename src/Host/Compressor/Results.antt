-- ===== src/Host/Compressor/Results.antt =====
-- Compressing with a compressor of the host library, and its results: pression/compressor.cpp. What a plugin
-- keeps is a state `S`, which its entry points read and change.
use pression.Base.{ℕ, zero, suc, ◌+◌, if◌then◌else◌, List, [], ◌∷◌, Option, none, some}
use pression.Rle.{◌>>=◌}
use pression.Plugin.Dims.{Dims, data_1d_flag}
use pression.Host.Plugins.{Numbers, Plugin}
use pression.Host.Instance.{Instance, name_of}
use pression.Host.Decompressor.{Result, no_result}
use pression.Host.Compressor.{is_good}

module _ (fl : Numbers) (S : Type 0) where
  -- The entry points `compress`, `getNumResults` and `getResult` of the plugins, with the object and the name
  -- first; `none` is an access behind a pointer that is not valid.
  pub record Entries : Type 0 where
    pub compress_image : Plugin fl → ℕ → ℕ → List ℕ → Dims → ℕ → S → Option S
    pub count_results : Plugin fl → ℕ → ℕ → S → Option ℕ
    pub result_at : Plugin fl → ℕ → ℕ → ℕ → S → Option (List ℕ)

module _ {fl : Numbers} {S : Type 0} (entries : Entries fl S) where
  open entries use {compress_image, count_results, result_at}

  -- `compress`.
  unfoldable pub compress : List ℕ → Dims → ℕ → Instance fl → S → Option S
  unfolding is_good name_of
  compress image dims flags st s =
      let called : Option S = do
        plugin ← st.plugin
        object ← st.object
        compress_image plugin object (name_of fl st.info) image dims flags s
      in if is_good fl st then called else some s

  -- `compress` of an image in one dimension.
  unfoldable pub compress_1d : List ℕ → Dims → Instance fl → S → Option S
  unfolding compress
  compress_1d image dims st s = compress image dims data_1d_flag st s

  -- `getNumResults`.
  unfoldable pub get_num_results : Instance fl → S → Option ℕ
  unfolding is_good name_of
  get_num_results st s =
      let called : Option ℕ = do
        plugin ← st.plugin
        object ← st.object
        count_results plugin object (name_of fl st.info) s
      in if is_good fl st then called else some 0

  -- `getResult` of one result; what it points to is not written if the compressor is not good, `none`.
  unfoldable pub get_result_at : ℕ → Instance fl → S → Option (List ℕ)
  unfolding is_good name_of
  get_result_at i st s =
      let called : Option (List ℕ) = do
        plugin ← st.plugin
        object ← st.object
        result_at plugin object (name_of fl st.info) i s
      in if is_good fl st then called else none

  -- The loop of `getResult` from the result `i` on, with `k` results left.
  unfoldable pub collect : Plugin fl → ℕ → ℕ → ℕ → ℕ → S → Option (List (List ℕ))
  collect plugin object name zero i s = some []
  collect plugin object name (suc k) i s = do
    chunk ← result_at plugin object name i s
    chunks ← collect plugin object name k (i + 1) s
    some (chunk ∷ chunks)

  -- `getResult`.
  unfoldable pub get_result : Instance fl → S → Option Result
  unfolding is_good name_of collect no_result
  get_result st s =
      let called : Option Result = do
        plugin ← st.plugin
        object ← st.object
        num ← count_results plugin object (name_of fl st.info) s
        chunks ← collect plugin object (name_of fl st.info) num 0 s
        some (record { compressor = name_of fl st.info; chunks = chunks })
      in if is_good fl st then called else some no_result
