-- ===== src/Tests/Search.antt =====
-- Loading plugins at concrete inputs.
use pression.Base.{ℕ, ◌≡◌, refl, arith, true, false, if◌then◌else◌, List, [], ◌∷◌, none, some}
use pression.Host.Plugins.{Info, Plugin, is_good}
use pression.Host.Registry.Load.{IsWellFormed}
use pression.Host.Loader.{
  Library, complete_info, initial_info, is_unsupported, has_base, has_cpu, has_gpu,
}
use pression.Host.Loader
use pression.Host.Loader.Infos.{is_usable, completed, reported_infos, construct-completed}
use pression.Host.Search
use pression.Host.Search.{
  separator, search_paths, text_or_empty, add_library_path, load_directory, load_directories,
  load_named,
}
use pression.Host.Search.Paths.{split_text, nonempty, search_paths-split_text}
use pression.Host.Search.Registry.{construct-IsWellFormed}
use pression.Tests.Host.{hundredths, info_of, jpeg}

-- A library with the entry points for the CPU, and one engine.
abbrev library : Library hundredths
library = record {
  is_open = true;
  get_num_compressors = some 1;
  get_info = some (λ i info. info_of 0x10 0x1908 100);
  new_compressor = true;
  new_decompressor = true;
  delete_compressor = true;
  delete_decompressor = true;
  compress = true;
  decompress = true;
  get_num_results = true;
  get_result = true;
  is_compatible = false;
  download = false;
  upload = false;
  start_download = false;
  finish_download = false;
}

abbrev blank : Info hundredths
blank = info_of 0 0 0

construct-completed_example :
    let plugin = Loader.construct hundredths (1 ∷ []) library blank in
    let usable = is_usable hundredths library blank library.get_num_compressors library.get_info in
    (is_good hundredths plugin ≡ usable)
    × (plugin.infos ≡ (
        if usable
        then completed hundredths library blank
            (reported_infos hundredths library blank library.get_num_compressors library.get_info)
        else []))
construct-completed_example = construct-completed hundredths (1 ∷ []) library blank

-- The library can be used; without an entry point of the base interface it cannot.
library_good : is_good hundredths (Loader.construct hundredths (1 ∷ []) library blank) ≡ true
unfolding is_good Loader.construct
library_good = refl

incomplete :
    is_good hundredths
      (Loader.construct hundredths (1 ∷ []) (record library { new_compressor = false }) blank)
    ≡ false
unfolding is_good Loader.construct
incomplete = refl

-- "a::b:" for the paths "a" and "b".
abbrev path_text : List ℕ
path_text = 0x61 ∷ 0x3a ∷ 0x3a ∷ 0x62 ∷ 0x3a ∷ []

search_paths-split_text_example : search_paths 6 path_text ≡ some (nonempty (split_text path_text))
search_paths-split_text_example = search_paths-split_text 6 path_text (omega arith)

two_paths : search_paths 6 path_text ≡ some ((0x61 ∷ []) ∷ (0x62 ∷ []) ∷ [])
unfolding search_paths
two_paths = refl

-- The files of a directory, and what they are: every file is the JPEG plugin.
abbrev files_of : List ℕ → List (List ℕ)
files_of dir = (1 ∷ []) ∷ []

abbrev open_jpeg : List ℕ → Plugin hundredths
open_jpeg file = jpeg

construct-IsWellFormed_example :
    let text = add_library_path (text_or_empty (some path_text)) none in
    let dirs = (0x61 ∷ []) ∷ (0x62 ∷ []) ∷ nonempty (split_text text) in
    let plugins =
      load_directories open_jpeg files_of dirs (load_named open_jpeg files_of ((1 ∷ []) ∷ []) []) in
    (Search.construct open_jpeg files_of
        ((1 ∷ []) ∷ [])
        (0x61 ∷ [])
        (0x62 ∷ [])
        (some path_text)
        none
      ≡ some plugins)
    × IsWellFormed [] plugins
construct-IsWellFormed_example =
    construct-IsWellFormed open_jpeg files_of ((1 ∷ []) ∷ []) (0x61 ∷ []) (0x62 ∷ [])
      (some path_text) none
