-- ===== src/Tests/Transfer.antt =====
-- Compressors, decompressors, uploaders and downloaders of the host library at concrete inputs.
use pression.Base.{
  ℕ, ◌≡◌, refl, arith, true, false, not, ◌||◌, ◌==◌, leb, if◌then◌else◌, bit_or, List, [], ◌∷◌,
  ◌++◌, none, some,
}
use pression.Host.Plugins.{Plugin, find_info, accept_infos, accept_plugin, on_result}
use pression.Host.Order.{IsStrictOrder}
use pression.Host.Instance.{
  none_name, object_list, is_some, empty_ledger, Instance, fresh, name_of, clear_decompressor,
}
use pression.Plugin.Dims.{Dims}
use pression.Host.Ownership
use pression.Host.Ownership.{is_consistent}
use pression.Host.Registry.{find_plugin, accept, accept_from}
use pression.Host.Registry.Traverse.{offers}
use pression.Host.Compressor
use pression.Host.Compressor.Balance
use pression.Host.Compressor.Balance.{setups, reallocs, run_settles}
use pression.Host.Decompressor
use pression.Host.Decompressor.Setup.{decompressor_setup}
use pression.Host.Uploader
use pression.Host.Uploader.Choose.{IsFastest, choose-IsFastest}
use pression.Host.Uploader.Balance as UploaderBalance
use pression.Host.Uploader.Balance.{uploader_returns}
use pression.Host.Downloader
use pression.Host.Downloader.{is_refused, async_flag}
use pression.Host.Downloader.Choose.{IsSmallest, choose-IsSmallest}
use pression.Host.Downloader.Transfer.{Transfers, is_async, start, finish, finish-start}
use pression.Host.Downloader.Setup.{obtains, downloader_setup, downloader_setup_again}
use pression.Tests.Host.{hundredths, info_of, rle, jpeg, rle_found, fresh_consistent}

abbrev pub plugins : List (Plugin hundredths)
plugins = rle ∷ jpeg ∷ []

-- Set up, allocate anew, set up with another name.
abbrev calls : List (Balance.Call hundredths)
calls =
    setups (λ p name. some 7) plugins 0x10
    ∷ reallocs (λ p name. some 8)
    ∷ setups (λ p name. some 9) plugins 0x80
    ∷ []

run_settles_example :
    let st = Balance.run hundredths calls (fresh hundredths) in
    (st.ledger.new_compressors ≡ st.ledger.deleted_compressors ++ object_list st.object)
    × ((Compressor.clear hundredths st).ledger.deleted_compressors
        ≡ (Compressor.clear hundredths st).ledger.new_compressors)
run_settles_example = run_settles hundredths calls

-- What is deleted by then.
deleted_objects :
    (Balance.run hundredths calls (fresh hundredths)).ledger.deleted_compressors ≡ 7 ∷ 8 ∷ []
unfolding Balance.run Balance.step Compressor.setup Compressor.realloc fresh find_plugin accept
    accept_from accept_plugin accept_infos on_result find_info
deleted_objects = refl

abbrev uploads : List (Ownership.Call (UploaderBalance.Args hundredths))
uploads =
    Ownership.setups (record { new_compressor = λ p name. some 7; plugins = plugins; name = 0x10 })
    ∷ Ownership.clears
    ∷ []

uploader_returns_example :
    let st = Ownership.run (UploaderBalance.set_up hundredths) uploads (fresh hundredths) in
    (st.ledger.new_compressors ≡ st.ledger.deleted_decompressors ++ object_list st.object)
    × ((clear_decompressor hundredths st).ledger.new_compressors
        ≡ (clear_decompressor hundredths st).ledger.deleted_decompressors)
    × ((clear_decompressor hundredths st).ledger.deleted_compressors ≡ [])
uploader_returns_example = uploader_returns hundredths uploads

strict : IsStrictOrder hundredths
strict = record { irreflexive = λ a. ground arith; transitive = λ a b c p q. ground arith }

abbrev pub upload_wish : Uploader.Wish hundredths
upload_wish = record { external_format = 0x1908; internal_format = 0x1908; capabilities = 0x8 }

choose-IsFastest_example :
    (result : Uploader.Candidate hundredths) × (Uploader.choose hundredths
        (λ p name. true)
        upload_wish
        plugins
      ≡ result.name)
    × IsFastest hundredths
        (λ p name. true)
        upload_wish
        (offers plugins)
        (Uploader.no_candidate hundredths)
        result
choose-IsFastest_example = choose-IsFastest hundredths (λ p name. true) upload_wish plugins strict

-- Of the two engines for the formats, the faster one is chosen.
fastest : Uploader.choose hundredths (λ p name. true) upload_wish plugins ≡ 0x10
unfolding Uploader.choose accept_from accept_plugin accept_infos on_result
fastest = refl

abbrev pub download_wish : Downloader.Wish hundredths
download_wish = record {
  internal_format = 0x1908;
  min_quality = 100;
  ignore_alpha = true;
  capabilities = 0x8;
}

choose-IsSmallest_example :
    (result : Downloader.Candidate hundredths) × (Downloader.choose hundredths
        (λ p name. true)
        download_wish
        plugins
      ≡ result.name)
    × IsSmallest hundredths
        (λ p name. true)
        download_wish
        (offers plugins)
        (Downloader.no_candidate hundredths)
        result
choose-IsSmallest_example =
    choose-IsSmallest hundredths (λ p name. true) download_wish plugins
      (record {
        strict = strict;
        equal_transitive = λ a b c p q. ground arith;
        greater_equal = λ a b c p q. ground arith;
        equal_greater = λ a b c p q. ground arith;
      })

-- Of the two engines with the same ratio, the faster one is chosen.
smallest : Downloader.choose hundredths (λ p name. true) download_wish plugins ≡ 0x10
unfolding Downloader.choose accept_from accept_plugin accept_infos on_result
smallest = refl

decompressor_setup_example :
    let (done, after) =
      Decompressor.setup hundredths (λ p name. none) plugins 0x10 (fresh hundredths) in
    (done ≡ (leb 0x10 none_name || Decompressor.uses hundredths 0x10 after))
    × (done ≡ (
        leb 0x10 none_name
        || Decompressor.uses hundredths 0x10 (fresh hundredths)
        || is_some (find_plugin 0x10 plugins)))
decompressor_setup_example =
    decompressor_setup hundredths (λ p name. none) plugins 0x10 (fresh hundredths)

fresh_unnamed : (0x10 == name_of hundredths (fresh hundredths).info) ≡ false
unfolding name_of fresh
fresh_unnamed = refl

fresh_held :
    (is_some (fresh hundredths).object || not (0x10 == name_of hundredths (fresh hundredths).info))
    ≡ true
unfolding name_of fresh is_some
fresh_held = refl

downloader_setup_example :
    let (done, after) =
      Downloader.setup hundredths (λ p name. some 7) none plugins 0x10 (fresh hundredths) in
    (done ≡ (leb 0x10 none_name || Downloader.uses hundredths 0x10 after))
    × (done ≡ (
        leb 0x10 none_name
        || Downloader.uses hundredths 0x10 (fresh hundredths)
        || obtains hundredths (λ p name. some 7) none 0x10 (find_plugin 0x10 plugins)))
downloader_setup_example =
    downloader_setup hundredths (λ p name. some 7) none plugins 0x10 (fresh hundredths)
      fresh_consistent fresh_held

not_refused : is_refused hundredths none rle 0x10 ≡ false
unfolding is_refused
not_refused = refl

downloader_setup_again_example :
    let (done, after) =
      Downloader.setup hundredths (λ p name. none) none plugins 0x10 (fresh hundredths) in
    let (done', after') = Downloader.setup hundredths (λ p name. none) none plugins 0x10 after in
    (done ≡ false) × (done' ≡ true) × (Downloader.uses hundredths 0x10 after' ≡ false)
downloader_setup_again_example =
    downloader_setup_again hundredths (λ p name. none) none plugins 0x10 (fresh hundredths) rle
      (omega arith) fresh_unnamed rle_found not_refused refl

-- Transfers that only note their flags; a download notes those of the start and of the finish.
abbrev noted : Transfers hundredths (List ℕ)
noted = record {
  download = λ p object name dims source flags s. flags ∷ flags ∷ s;
  start_download = λ p object name dims source flags s. flags ∷ s;
  finish_download = λ p object name dims flags s. flags ∷ s;
  upload_image = λ p object name dims destination flags s. s;
}

abbrev frame : Dims
frame = record { x = 0; w = 4; y = 0; h = 4 }

abbrev async_downloader : Instance hundredths
async_downloader = record {
  plugin = some rle;
  object = some 7;
  info = some (record (info_of 0x10 0x1908 100) { capabilities = async_flag });
  ledger = empty_ledger;
}

finish-start_example :
    let pending = is_async noted async_downloader.info in
    (t : List ℕ) × (start noted frame 0 4 async_downloader [] ≡ some (pending, t))
    × (finish noted frame 4 async_downloader t
        ≡ noted.download rle
            (some 7)
            (name_of hundredths async_downloader.info)
            frame
            0
            (if pending then bit_or 4 async_flag else 4)
            [])
finish-start_example =
    finish-start noted frame 0 4 async_downloader rle [] (λ object name flags t. refl) refl
