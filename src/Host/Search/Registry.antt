-- ===== src/Host/Search/Registry.antt =====
-- What the registry holds when its constructor has ended.
use pression.Base.{
  ℕ, suc, ◌+◌, ◌≡◌, refl, ap, arith, List, [], ◌∷◌, length, length-append, Option, some,
}
use pression.Host.Plugins.{Numbers, Plugin}
use pression.Host.Registry.{load_file}
use pression.Host.Registry.Load.{IsWellFormed, load_file-IsWellFormed}
use pression.Host.Search.{
  text_or_empty, add_library_path, file_path, count_loaded, load_files, load_directory,
  load_directories, load_named, construct,
}
use pression.Host.Search.Paths.{split_text, nonempty, search_paths-split_text}

module _ {fl : Numbers} (open_plugin : List ℕ → Plugin fl)
    (search_directory : List ℕ → List (List ℕ)) where
  added-IsWellFormed :
      (file : List ℕ) (plugins : List (Plugin fl))
      → IsWellFormed [] plugins
      → IsWellFormed [] (load_file open_plugin file plugins).1
  added-IsWellFormed file plugins h = (load_file-IsWellFormed open_plugin file plugins h).1

  -- What is counted as loaded are the plugins that are added.
  length-load_file :
      (file : List ℕ) (loaded : ℕ) (plugins : List (Plugin fl))
      → IsWellFormed [] plugins
      → let added = load_file open_plugin file plugins in
        length added.1 + loaded ≡ length plugins + count_loaded added.0 loaded
  unfolding count_loaded
  length-load_file file loaded plugins h =
      let p = (load_file-IsWellFormed open_plugin file plugins h).0 in
      ground (arith, ap length p, length-append plugins (open_plugin file ∷ []))

  load_files-IsWellFormed :
      (dir : List ℕ) (files : List (List ℕ)) (loaded : ℕ) (plugins : List (Plugin fl))
      → IsWellFormed [] plugins
      → let result = load_files open_plugin search_directory dir files loaded plugins in
        IsWellFormed [] result.1 × (length result.1 + loaded ≡ length plugins + result.0)
  unfolding load_files
  load_files-IsWellFormed dir [] loaded plugins h = (h, refl)
  load_files-IsWellFormed dir (file ∷ files) loaded plugins h =
      let added = load_file open_plugin (file_path dir file) plugins in
      let (well, counted) =
        load_files-IsWellFormed dir files (count_loaded added.0 loaded) added.1
          (added-IsWellFormed (file_path dir file) plugins h) in
      (well, omega (arith, counted, length-load_file (file_path dir file) loaded plugins h))

  load_directories-IsWellFormed :
      (dirs : List (List ℕ)) (plugins : List (Plugin fl))
      → IsWellFormed [] plugins
      → IsWellFormed [] (load_directories open_plugin search_directory dirs plugins)
  unfolding load_directories load_directory
  load_directories-IsWellFormed [] plugins h = h
  load_directories-IsWellFormed (dir ∷ dirs) plugins h =
      load_directories-IsWellFormed dirs
        (load_files open_plugin search_directory dir (search_directory dir) 0 plugins).1
        (load_files-IsWellFormed dir (search_directory dir) 0 plugins h).0

  load_named-IsWellFormed :
      (files : List (List ℕ)) (plugins : List (Plugin fl))
      → IsWellFormed [] plugins
      → IsWellFormed [] (load_named open_plugin search_directory files plugins)
  unfolding load_named
  load_named-IsWellFormed [] plugins h = h
  load_named-IsWellFormed (file ∷ files) plugins h =
      load_named-IsWellFormed files (load_file open_plugin file plugins).1
        (added-IsWellFormed file plugins h)

-- `loadDirectory` returns how many plugins it added, and keeps the registry well-formed: every plugin has infos,
-- and none has the first info's name of a plugin before it.
pub load_directory-IsWellFormed :
    {fl : Numbers} (open_plugin : List ℕ → Plugin fl) (search_directory : List ℕ → List (List ℕ))
    (dir : List ℕ) (plugins : List (Plugin fl))
    → IsWellFormed [] plugins
    → let (loaded, after) = load_directory open_plugin search_directory dir plugins in
      (length after ≡ length plugins + loaded) × IsWellFormed [] after
unfolding load_directory
load_directory-IsWellFormed open_plugin search_directory dir plugins h =
    let (well, counted) =
      load_files-IsWellFormed open_plugin search_directory dir (search_directory dir) 0 plugins h in
    (omega (arith, counted), well)

-- The constructor of the registry ends, whatever the environment holds. It loads the files that were named when the
-- library was built, then the plugins of the working directory, of the library path, and of the directories that
-- PRESSION_PLUGIN_PATH and LD_LIBRARY_PATH name between their separators, in this order; and what it leaves is
-- well-formed.
pub construct-IsWellFormed :
    {fl : Numbers} (open_plugin : List ℕ → Plugin fl) (search_directory : List ℕ → List (List ℕ))
    (named : List (List ℕ)) (working_directory library_path : List ℕ)
    (plugin_path ld_path : Option (List ℕ))
    → let text = add_library_path (text_or_empty plugin_path) ld_path in
      let dirs = working_directory ∷ library_path ∷ nonempty (split_text text) in
      let plugins =
        load_directories open_plugin search_directory dirs
          (load_named open_plugin search_directory named []) in
      (construct open_plugin search_directory named working_directory library_path plugin_path
          ld_path
        ≡ some plugins)
      × IsWellFormed [] plugins
unfolding construct load_directories
construct-IsWellFormed open_plugin search_directory named working_directory library_path plugin_path
      ld_path =
    let text = add_library_path (text_or_empty plugin_path) ld_path in
    let dirs = working_directory ∷ library_path ∷ nonempty (split_text text) in
    let start = load_named open_plugin search_directory named [] in
    (
      rw (search_paths-split_text (suc (length text)) text (omega arith)) refl,
      load_directories-IsWellFormed open_plugin search_directory dirs start
          (load_named-IsWellFormed open_plugin search_directory named [] tt),
    )
