-- ===== src/Tests/Supports.antt =====
-- Uploaders and downloaders that are set up with a choice, at concrete inputs.
use pression.Base.{◌≡◌, refl, true, ◌||◌, leb, some}
use pression.Host.Plugins.{find_info, accept_infos, accept_plugin, on_result}
use pression.Host.Instance.{none_name, fresh}
use pression.Host.Registry.{find_plugin, accept_from}
use pression.Host.Registry.Traverse.{offers}
use pression.Host.Found.{AreFound}
use pression.Host.Uploader
use pression.Host.Uploader.Supports
use pression.Host.Uploader.Supports.{setup_choice-supports}
use pression.Host.Downloader
use pression.Host.Downloader.Supports.{allocates, downloader_choice-supports}
use pression.Tests.Host.{hundredths}
use pression.Tests.Transfer.{plugins, upload_wish, download_wish}

names_found : AreFound plugins (offers plugins)
unfolding find_plugin accept_from accept_plugin accept_infos on_result find_info
names_found = ((refl, refl), ((refl, refl), ((refl, refl), tt)))

setup_choice-supports_example :
    let (done, after) =
      Uploader.setup_choice hundredths
        (λ p name. some 7)
        (λ p name. true)
        plugins
        upload_wish
        (fresh hundredths) in
    let name = Uploader.choose hundredths (λ p name. true) upload_wish plugins in
    (done ≡ (leb name none_name || Uploader.supports hundredths (λ p name. true) upload_wish after))
    × (done ≡ (
        leb name none_name
        || Supports.obtains hundredths
            (λ p name. some 7)
            (λ p name. true)
            plugins
            upload_wish
            name
            (find_plugin name plugins)))
setup_choice-supports_example =
    setup_choice-supports hundredths (λ p name. some 7) (λ p name. true) plugins upload_wish
      names_found

downloader_choice-supports_example :
    let (done, after) =
      Downloader.setup_choice hundredths
        (λ p name. some 7)
        (λ p name. true)
        plugins
        download_wish
        (fresh hundredths) in
    let supported = Downloader.supports hundredths 0x1908 true 0x8 after in
    let name = Downloader.choose hundredths (λ p name. true) download_wish plugins in
    (done ≡ (leb name none_name || supported))
    × (done ≡ (
        leb name none_name
        || allocates hundredths
            (λ p name. some 7)
            (λ p name. true)
            plugins
            download_wish
            name
            (find_plugin name plugins)))
downloader_choice-supports_example =
    downloader_choice-supports hundredths (λ p name. some 7) (λ p name. true) plugins download_wish
      names_found
