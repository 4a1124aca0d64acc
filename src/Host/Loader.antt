-- ===== src/Host/Loader.antt =====
-- How a plugin is made from a dynamic library: the constructor of `Plugin`, pression/plugin.cpp. The entry points
-- that the library has are a parameter.
pub mod Infos
use pression.Base.{
  ℕ, zero, suc, ◌+◌, Bool, true, false, not, ◌&&◌, ◌||◌, ◌==◌, if◌then◌else◌, List, [], ◌∷◌, Option,
  none, some,
}
use pression.Plugin.Dims.{has_flag, ignore_alpha_flag}
use pression.Host.Plugins.{Numbers, Info, Plugin}
use pression.Host.Compressor.{transfer_flag}
use pression.Host.Downloader.{async_flag}

-- The tokens `EQ_COMPRESSOR_DATATYPE_*` that are read: NONE, those with four channels of which alpha is a
-- quarter, and RGB10_A2.
abbrev pub no_token : ℕ
no_token = 0x0

abbrev pub quarter_alpha_tokens : List ℕ
quarter_alpha_tokens = 0x1908 ∷ 0x1000 ∷ 0x881a ∷ 0x8814 ∷ 0x401 ∷ 0x1001 ∷ 0x3 ∷ 0x405 ∷ []

abbrev pub rgb10_a2_token : ℕ
rgb10_a2_token = 0x8059

unfoldable pub contains : ℕ → List ℕ → Bool
contains token [] = false
contains token (t ∷ ts) = token == t || contains token ts

module _ (fl : Numbers) where
  -- Whether the library is open, and which entry points it has. `getNumCompressors` is given by its result, and
  -- `getInfo` by what it leaves of an info.
  pub record Library : Type 0 where
    pub is_open : Bool
    pub get_num_compressors : Option ℕ
    pub get_info : Option (ℕ → Info fl → Info fl)
    pub new_compressor : Bool
    pub new_decompressor : Bool
    pub delete_compressor : Bool
    pub delete_decompressor : Bool
    pub compress : Bool
    pub decompress : Bool
    pub get_num_results : Bool
    pub get_result : Bool
    pub is_compatible : Bool
    pub download : Bool
    pub upload : Bool
    pub start_download : Bool
    pub finish_download : Bool

  -- `hasCPU` and `hasGPU`, and the part of `hasBase` that is only tested.
  unfoldable pub has_cpu : Library → Bool
  has_cpu lib = lib.get_result && lib.get_num_results && lib.decompress && lib.compress

  unfoldable pub has_gpu : Library → Bool
  has_gpu lib = lib.is_compatible && lib.download && lib.upload

  unfoldable pub has_base : Library → Bool
  has_base lib =
      lib.new_decompressor && lib.new_compressor && lib.delete_compressor && lib.delete_decompressor

  -- The rating for the case that alpha is ignored.
  unfoldable pub rating_without_alpha : Info fl → fl.Number → fl.Number
  unfolding has_flag contains
  rating_without_alpha info rating =
      if has_flag info.capabilities ignore_alpha_flag
      then (if contains info.token_type quarter_alpha_tokens
          then fl.quotient rating fl.three_quarters
          else if info.token_type == rgb10_a2_token
          then fl.quotient rating fl.fifteen_sixteenths
          else rating)
      else rating

  -- The token type that is set for the output.
  unfoldable pub output_type : Info fl → ℕ
  unfolding has_flag
  output_type info =
      if not (has_flag info.capabilities transfer_flag) && info.output_token_type == no_token
      then info.token_type
      else info.output_token_type

  -- What the loop makes of an info that `getInfo` gave.
  unfoldable pub complete_info : Info fl → Info fl
  unfolding rating_without_alpha output_type
  complete_info info =
      let rating = fl.quotient (fl.power info.speed) info.ratio in
      record info {
        rating_alpha = rating;
        rating_no_alpha = rating_without_alpha info rating;
        output_token_type = output_type info;
      }

  -- The info before `getInfo`; the members that are not set are those of `blank`.
  unfoldable pub initial_info : Info fl → Info fl
  initial_info blank = record blank {
    output_token_type = no_token;
    output_token_size = 0;
    rating_alpha = fl.zero;
    rating_no_alpha = fl.zero;
  }

  -- An info asks for asynchronous downloads, but their entry points are missing.
  unfoldable pub is_unsupported : Library → Info fl → Bool
  unfolding has_flag
  is_unsupported lib info =
      has_flag info.capabilities async_flag && (not lib.start_download || not lib.finish_download)

  -- The loop from the info `i` on, with `k` left; `none` where the infos are cleared.
  unfoldable pub load_infos :
      Library → (ℕ → Info fl → Info fl) → Info fl → ℕ → ℕ → Option (List (Info fl))
  unfolding is_unsupported complete_info initial_info
  load_infos lib get_info blank zero i = some []
  load_infos lib get_info blank (suc k) i =
      let info = get_info i (initial_info blank) in
      if is_unsupported lib info
      then none
      else add (complete_info info) (load_infos lib get_info blank k (i + 1))
    where
      add : Info fl → Option (List (Info fl)) → Option (List (Info fl))
      add info none = none
      add info (some infos) = some (info ∷ infos)

  -- What is left of the infos when the loop ends.
  unfoldable pub infos_or_none : Option (List (Info fl)) → List (Info fl)
  infos_or_none none = []
  infos_or_none (some infos) = infos

  -- The constructor, for the entry points that are also called.
  unfoldable pub construct_infos :
      Library → Info fl → Option ℕ → Option (ℕ → Info fl → Info fl) → List (Info fl)
  unfolding has_base has_cpu has_gpu load_infos infos_or_none
  construct_infos lib blank (some n) (some get_info) =
      if not (has_base lib) || (not (has_cpu lib) && not (has_gpu lib))
      then []
      else if n == 0
      then []
      else infos_or_none (load_infos lib get_info blank n 0)
  construct_infos lib blank none get_info = []
  construct_infos lib blank (some n) none = []

  -- The constructor.
  unfoldable pub construct : List ℕ → Library → Info fl → Plugin fl
  unfolding construct_infos
  construct file lib blank = record {
    file = file;
    infos =
        if lib.is_open then construct_infos lib blank lib.get_num_compressors lib.get_info else [];
  }
