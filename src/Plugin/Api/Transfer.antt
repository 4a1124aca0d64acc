-- ===== src/Plugin/Api/Transfer.antt =====
-- The entry points of the plugin that transfer images from and to the GPU: pression/compressor/compressor.cpp, and the
-- virtual methods of pression/compressor/compressor.h that they call, which no class of the plugin overrides. What the
-- GL context and the buffers of the caller hold is a state `S`. What the macro `LBDONTCALL` of lunchbox does is a
-- parameter: it leaves a state, or ends the program.
use pression.Base.{ℕ, Option}
use pression.Rle.{◌>>=◌}
use pression.Plugin.Dims.{Dims}
use pression.Plugin.Api.{Instance, State, instance_at}

module _ {S : Type 0} (dont_call : S → Option S) where
  -- `Compressor::download`, `upload`, `startDownload` and `finishDownload`, with the dimensions of the input, the source or
  -- the destination where there is one, and the flags.
  unfoldable pub class_download : Instance → Dims → ℕ → ℕ → S → Option S
  class_download object dims source flags s = dont_call s

  unfoldable pub class_upload : Instance → Dims → ℕ → ℕ → S → Option S
  class_upload object dims destination flags s = dont_call s

  unfoldable pub class_start_download : Instance → Dims → ℕ → ℕ → S → Option S
  class_start_download object dims source flags s = dont_call s

  unfoldable pub class_finish_download : Instance → Dims → ℕ → ℕ → S → Option S
  class_finish_download object dims source flags s = dont_call s

  -- `EqCompressorDownload`, `EqCompressorUpload`, `EqCompressorStartDownload` and `EqCompressorFinishDownload`, through a
  -- pointer to a compressor.
  unfoldable pub download : ℕ → State → Dims → ℕ → ℕ → S → Option S
  unfolding instance_at class_download
  download ptr st dims source flags s = do
    object ← instance_at ptr st
    class_download object dims source flags s

  unfoldable pub upload : ℕ → State → Dims → ℕ → ℕ → S → Option S
  unfolding instance_at class_upload
  upload ptr st dims destination flags s = do
    object ← instance_at ptr st
    class_upload object dims destination flags s

  unfoldable pub start_download : ℕ → State → Dims → ℕ → ℕ → S → Option S
  unfolding instance_at class_start_download
  start_download ptr st dims source flags s = do
    object ← instance_at ptr st
    class_start_download object dims source flags s

  unfoldable pub finish_download : ℕ → State → Dims → ℕ → ℕ → S → Option S
  unfolding instance_at class_finish_download
  finish_download ptr st dims source flags s = do
    object ← instance_at ptr st
    class_finish_download object dims source flags s
