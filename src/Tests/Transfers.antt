-- ===== src/Tests/Transfers.antt =====
-- The plugin of this repository, which transfers no images, with downloaders and uploaders at concrete inputs.
use pression.Base.{ℕ, ◌+◌, ◌≡◌, refl, arith, [], ◌∷◌, ◌++◌, Option, none, some, false}
use pression.Plugin.Engines.{
  engine, rle4b_engines, rle4hf_engines, rle565_engines, rle10a2_engines, rle_yuv_engines,
}
use pression.Plugin.Api.Transfer.{download, upload, start_download, finish_download}
use pression.Host.Plugins.{Plugin}
use pression.Host.Instance.{none_name, fresh}
use pression.Host.Downloader
use pression.Host.Uploader
use pression.Host.Chosen.{own_plugin}
use pression.Host.Transfers.{AreTestless, api_compatible, host_never_transfers}
use pression.Tests.Host.{hundredths, wish, info_of}
use pression.Tests.Api.{plain, diff, state, dims}
use pression.Tests.Transfer.{upload_wish, download_wish}

testless : AreTestless (plain ∷ diff ∷ [])
unfolding engine
testless = (refl, (refl, tt))

-- So is every engine that this repository registers.
all_testless :
    AreTestless (
      rle4b_engines ++ (rle4hf_engines ++ (rle565_engines ++ (rle10a2_engines ++ rle_yuv_engines))))
unfolding rle4b_engines rle4hf_engines rle565_engines rle10a2_engines rle_yuv_engines engine
all_testless = (
  refl,
  (
    refl,
    (
      refl,
      (
        refl,
        (
          refl,
          (
            refl,
            (
              refl,
              (
                refl,
                (
                  refl,
                  (
                    refl,
                    (
                      refl,
                      (
                        refl,
                        (
                          refl,
                          (
                            refl,
                            (refl, (refl, (refl, (refl, (refl, (refl, (refl, (refl, tt)))))))),
                          ),
                        ),
                      ),
                    ),
                  ),
                ),
              ),
            ),
          ),
        ),
      ),
    ),
  ),
)

abbrev own : Plugin hundredths
own = own_plugin hundredths (λ n. n) state (info_of 0 0 0) [] wish

host_never_transfers_example :
    (Downloader.choose hundredths (api_compatible 1 state) download_wish (own ∷ []) ≡ none_name)
    × (Uploader.choose hundredths (api_compatible 1 state) upload_wish (own ∷ []) ≡ none_name)
    × ((Downloader.setup hundredths
          (λ p name. some 7)
          (some (api_compatible 1 state))
          (own ∷ [])
          0x10
          (fresh hundredths)).0
        ≡ false)
host_never_transfers_example =
    host_never_transfers hundredths state (plain ∷ diff ∷ []) 1 0x10 (own ∷ []) (λ p name. some 7)
      download_wish upload_wish refl testless (omega arith)

-- Each entry point for transfers reaches `LBDONTCALL` once, which is counted here, unless the pointer is not valid.
abbrev count_call : ℕ → Option ℕ
count_call n = some (n + 1)

every_transfer :
    (download count_call 1 state dims 5 0 0 ≡ some 1)
    × (upload count_call 1 state dims 5 0 0 ≡ some 1)
    × (start_download count_call 1 state dims 5 0 0 ≡ some 1)
    × (finish_download count_call 1 state dims 5 0 0 ≡ some 1)
    × (download count_call 0 state dims 5 0 0 ≡ none)
unfolding download upload start_download finish_download
every_transfer = (refl, refl, refl, refl, refl)
