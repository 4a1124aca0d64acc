-- ===== src/Plugin/Api.antt =====
-- The C interface of the plugin: pression/compressor/compressor.cpp. Pointers to compressors are
-- positions in a store. `none` is an access behind a pointer that is not valid, or the end of the
-- program.
pub mod Find
pub mod RoundTrip
pub mod Transfer
use pression.Base.{
  ℕ, zero, suc, Bool, false, ◌+◌, ◌==◌, if◌then◌else◌, List, [], ◌∷◌, ◌++◌, length, get_elem?, set,
  Option, none, some,
}
use pression.Rle.{◌>>=◌}
use pression.Plugin.Float.{Float32}
use pression.Plugin.Dims.{Dims}
use pression.Plugin.Codec.{Build, Results}
use pression.Plugin.Class.{Class, compress_dims, decompress_dims}
use pression.Plugin.Engines.{Functions, Info}

-- A compressor: its class, and its members `_results` and `_nResults`.
pub record Instance : Type 0 where
  pub class : Class
  pub results : Results

-- `_functions`, `none` before it is allocated, and the compressors that were allocated, `none` when
-- they were deleted.
pub record State : Type 0 where
  pub functions : Option (List Functions)
  pub instances : List (Option Instance)

-- `Compressor::registerEngine`.
unfoldable pub register_engine : Functions → State → State
register_engine f st = record st { functions = some (added st.functions) }
  where
    added : Option (List Functions) → List Functions
    added none = f ∷ []
    added (some fs) = fs ++ (f ∷ [])

-- `_functions->front()`.
unfoldable pub front : List Functions → Option Functions
front [] = none
front (f ∷ fs) = some f

-- The loop of `_findFunctions`, and `_findFunctions` where assertions are off.
unfoldable pub search_functions : ℕ → List Functions → Option Functions
search_functions name [] = none
search_functions name (f ∷ fs) =
    let rest = search_functions name fs in if f.name == name then some f else rest

unfoldable pub or_else : Option Functions → Option Functions → Option Functions
or_else none other = other
or_else (some f) other = some f

unfoldable pub find_functions : ℕ → State → Option Functions
unfolding front search_functions or_else
find_functions name st = do fs ← st.functions; or_else (search_functions name fs) (front fs)

-- `EqCompressorGetNumCompressors`.
unfoldable pub get_num_compressors : State → ℕ × State
get_num_compressors st = counted st.functions
  where
    counted : Option (List Functions) → ℕ × State
    counted none = (0, record st { functions = some [] })
    counted (some fs) = (length fs, st)

-- `EqCompressorGetInfo`.
unfoldable pub get_info : ℕ → State → Option Info
get_info n st = do fs ← st.functions; f ← get_elem? fs n; some f.info

-- `EqCompressorNewCompressor`: the constructor sets `_nResults`.
unfoldable pub new_compressor : ℕ → State → Option (ℕ × State)
unfolding find_functions
new_compressor name st = do
  f ← find_functions name st
  let new : Instance = record { class = f.class; results = record { buffers = []; n_results = 0 } }
  some (length st.instances, record st { instances = st.instances ++ (some new ∷ []) })

-- `EqCompressorNewDecompressor`: no class needs an instance, `none` is the null pointer.
unfoldable pub new_decompressor : ℕ → State → Option (Option ℕ)
unfolding find_functions
new_decompressor name st = do f ← find_functions name st; some none

-- What `isCompatible` says of a GL context; the null pointer where assertions are off.
unfoldable pub is_tested : Option (ℕ → Bool) → ℕ → Bool
is_tested none gl = false
is_tested (some test) gl = test gl

-- `EqCompressorIsCompatible`.
unfoldable pub is_compatible : ℕ → ℕ → State → Option Bool
unfolding find_functions is_tested
is_compatible name gl st = do f ← find_functions name st; some (is_tested f.is_compatible gl)

-- The object that a pointer points to.
unfoldable pub instance_at : ℕ → State → Option Instance
instance_at ptr st = do slot ← get_elem? st.instances ptr; slot

-- `EqCompressorDeleteCompressor`.
unfoldable pub delete_compressor : ℕ → State → Option State
unfolding instance_at
delete_compressor ptr st = do
  object ← instance_at ptr st
  some (record st { instances = set st.instances ptr none })

-- `EqCompressorDeleteDecompressor`, which deletes the same; the null pointer may be deleted.
unfoldable pub delete_decompressor : Option ℕ → State → Option State
unfolding delete_compressor
delete_decompressor none st = some st
delete_decompressor (some ptr) st = delete_compressor ptr st

-- `EqCompressorGetNumResults`.
unfoldable pub get_num_results : ℕ → State → Option ℕ
unfolding instance_at
get_num_results ptr st = do object ← instance_at ptr st; some object.results.n_results

-- `EqCompressorGetResult`.
unfoldable pub get_result : ℕ → ℕ → State → Option (List ℕ)
unfolding instance_at
get_result ptr i st = do object ← instance_at ptr st; get_elem? object.results.buffers i

-- How the host collects `k` results from the result `i` on.
unfoldable pub get_results : ℕ → ℕ → ℕ → State → Option (List (List ℕ))
unfolding get_result
get_results ptr zero i st = some []
get_results ptr (suc k) i st = do
  result ← get_result ptr i st
  rest ← get_results ptr k (i + 1) st
  some (result ∷ rest)

module _ (fl : Float32) (build : Build) where
  -- `EqCompressorCompress`.
  unfoldable pub compress : ℕ → List ℕ → Dims → ℕ → State → Option State
  unfolding instance_at compress_dims
  compress ptr image dims flags st = do
    object ← instance_at ptr st
    new ← compress_dims object.class fl build image dims flags object.results
    some (record st { instances = set st.instances ptr (some (record object { results = new })) })

  -- `EqCompressorDecompress`.
  unfoldable pub decompress : ℕ → List (List ℕ) → List ℕ → Dims → ℕ → State → Option (List ℕ)
  unfolding find_functions decompress_dims
  decompress name inputs out dims flags st = do
    f ← find_functions name st
    decompress_dims f.class fl inputs out dims flags
