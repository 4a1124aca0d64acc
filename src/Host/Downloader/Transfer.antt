-- ===== src/Host/Downloader/Transfer.antt =====
-- Transfers from and to the GPU by the entry points of a plugin: `start` and `finish` of pression/downloader.cpp, and
-- `upload` of pression/uploader.cpp. What the GL context, the plugin and the buffers of the caller hold is a state
-- `S`.
use pression.Base.{
  ℕ, Bool, true, false, ◌≡◌, refl, Bool-cases, inl, inr, if◌then◌else◌, Option, none, some, bit_or,
}
use pression.Rle.{◌>>=◌}
use pression.Plugin.Dims.{Dims, has_flag}
use pression.Host.Plugins.{Numbers, Info, Plugin}
use pression.Host.Instance.{Instance, name_of}
use pression.Host.Downloader.{async_flag}

module _ (fl : Numbers) (S : Type 0) where
  -- The entry points, with the object, the name and the dimensions first, then the source or the destination where
  -- there is one, and the flags.
  pub record Transfers : Type 0 where
    pub download : Plugin fl → Option ℕ → ℕ → Dims → ℕ → ℕ → S → S
    pub start_download : Plugin fl → Option ℕ → ℕ → Dims → ℕ → ℕ → S → S
    pub finish_download : Plugin fl → Option ℕ → ℕ → Dims → ℕ → S → S
    pub upload_image : Plugin fl → Option ℕ → ℕ → Dims → ℕ → ℕ → S → S

module _ {fl : Numbers} {S : Type 0} (transfers : Transfers fl S) where
  open transfers use {download, start_download, finish_download, upload_image}

  -- The test of the capabilities; those of the info that is cleared are 0.
  unfoldable pub is_async : Option (Info fl) → Bool
  unfolding has_flag
  is_async none = false
  is_async (some info) = has_flag info.capabilities async_flag

  -- `start`: whether `finish` is needed. Without a plugin the null pointer is read.
  unfoldable pub start : Dims → ℕ → ℕ → Instance fl → S → Option (Bool × S)
  unfolding is_async name_of
  start dims source flags st s = do
    plugin ← st.plugin
    let name = name_of fl st.info
    let later : Bool × S =
        (true, start_download plugin st.object name dims source (bit_or flags async_flag) s)
    let now : Bool × S = (false, download plugin st.object name dims source flags s)
    some (if is_async st.info then later else now)

  -- `finish`, for the plugin that is there.
  unfoldable pub finish_with : Option (Plugin fl) → Dims → ℕ → Instance fl → S → S
  unfolding is_async name_of
  finish_with none dims flags st s = s
  finish_with (some plugin) dims flags st s =
      if is_async st.info
      then finish_download plugin st.object (name_of fl st.info) dims (bit_or flags async_flag) s
      else s

  unfoldable pub finish : Dims → ℕ → Instance fl → S → S
  unfolding finish_with
  finish dims flags st s = finish_with st.plugin dims flags st s

  -- `upload`.
  unfoldable pub upload : Dims → ℕ → ℕ → Instance fl → S → Option S
  unfolding name_of
  upload dims destination flags st s = do
    plugin ← st.plugin
    some (upload_image plugin st.object (name_of fl st.info) dims destination flags s)

-- If a plugin's synchronous download is what starting and finishing one does, as is asked of plugins, then `start`
-- and `finish` of a downloader that has a plugin have together the effect of exactly one download, with the flags
-- given, and the one for asynchronous downloads if the plugin supports these; whether it does is what `start`
-- returns.
pub finish-start :
    {fl : Numbers} {S : Type 0} (transfers : Transfers fl S) (dims : Dims) (source flags : ℕ)
    (st : Instance fl) (p : Plugin fl) (s : S)
    → ((object : Option ℕ) (name all_flags : ℕ) (t : S)
        → transfers.finish_download p object name dims all_flags
            (transfers.start_download p object name dims source all_flags t)
          ≡ transfers.download p object name dims source all_flags t)
    → st.plugin ≡ some p
    → let pending = is_async transfers st.info in
      (t : S) × (start transfers dims source flags st s ≡ some (pending, t))
      × (finish transfers dims flags st t
          ≡ transfers.download p st.object
              (name_of fl st.info)
              dims
              source
              (if pending then bit_or flags async_flag else flags)
              s)
unfolding start finish
finish-start {fl = fl} transfers dims source flags st p s law plugged =
    elim (Bool-cases (is_async transfers st.info)) [
      | inl e ↦ (
        transfers.start_download p st.object (name_of fl st.info) dims source
            (bit_or flags async_flag) s,
        rw (plugged, e) refl,
        rw (plugged, e) (law st.object (name_of fl st.info) (bit_or flags async_flag) s),
      )
      | inr e ↦ (
        transfers.download p st.object (name_of fl st.info) dims source flags s,
        rw (plugged, e) refl,
        rw (plugged, e) refl,
      )
    ]
