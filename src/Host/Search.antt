-- ===== src/Host/Search.antt =====
-- How the registry finds plugins: `loadDirectory` and the constructor of `PluginRegistry`,
-- pression/pluginRegistry.cpp, as on Linux. Searching a directory, the working directory, the library path and the
-- environment are parameters. A text is the list of its characters.
pub mod Paths
pub mod Registry
use pression.Base.{
  ℕ, zero, suc, ◌+◌, Bool, true, false, ◌==◌, if◌then◌else◌, List, [], ◌∷◌, ◌++◌, length, take,
  drop, Option, none, some,
}
use pression.Rle.{◌>>=◌}
use pression.Host.Plugins.{Numbers, Plugin}
use pression.Host.Registry.{load_file}
use pression.Host.Decompressor.{is_empty}

-- ':' and '/'.
abbrev pub separator : ℕ
separator = 0x3a

abbrev pub slash : ℕ
slash = 0x2f

-- `std::string::find` of a character; `none` is `npos`.
unfoldable pub next_index : Option ℕ → Option ℕ
next_index none = none
next_index (some i) = some (suc i)

unfoldable pub find_character : ℕ → List ℕ → Option ℕ
unfolding next_index
find_character c [] = none
find_character c (x ∷ xs) = if x == c then some 0 else next_index (find_character c xs)

-- `nextPos`: the end of the text, if there is no separator.
unfoldable pub position_or : ℕ → Option ℕ → ℕ
position_or n none = n
position_or n (some i) = i

unfoldable pub next_position : List ℕ → ℕ
unfolding find_character position_or
next_position text = position_or (length text) (find_character separator text)

-- What is left of the text behind `nextPos`.
unfoldable pub rest_behind : ℕ → List ℕ → List ℕ
rest_behind pos text = if pos == length text then [] else drop (pos + 1) text

unfoldable pub keep_path : List ℕ → List (List ℕ) → List (List ℕ)
unfolding is_empty
keep_path path paths = if is_empty path then paths else path ∷ paths

-- The loop over the text, to the paths that are loaded; `none` means that the fuel ran out.
unfoldable pub search_paths : ℕ → List ℕ → Option (List (List ℕ))
unfolding is_empty next_position rest_behind keep_path
search_paths zero text = none
search_paths (suc fuel) text =
    let pos = next_position text in
    let more : Option (List (List ℕ)) = do
      paths ← search_paths fuel (rest_behind pos text)
      some (keep_path (take pos text) paths)
    in if is_empty text then some [] else more

-- The text that is split: the two variables of the environment, `none` where they are not set.
unfoldable pub text_or_empty : Option (List ℕ) → List ℕ
text_or_empty none = []
text_or_empty (some text) = text

unfoldable pub add_library_path : List ℕ → Option (List ℕ) → List ℕ
add_library_path text none = text
add_library_path text (some path) = text ++ (separator ∷ path)

-- The name of a file in a directory.
unfoldable pub file_path : List ℕ → List ℕ → List ℕ
unfolding is_empty
file_path dir file = if is_empty dir then file else dir ++ (slash ∷ file)

-- `loaded += `, the result of `loadFile`.
unfoldable pub count_loaded : Bool → ℕ → ℕ
count_loaded true loaded = loaded + 1
count_loaded false loaded = loaded

module _ {fl : Numbers} (open_plugin : List ℕ → Plugin fl)
    (search_directory : List ℕ → List (List ℕ)) where
  -- The loop of `loadDirectory` over the files, with its variable `loaded`.
  unfoldable pub load_files : List ℕ → List (List ℕ) → ℕ → List (Plugin fl) → ℕ × List (Plugin fl)
  unfolding file_path load_file count_loaded
  load_files dir [] loaded plugins = (loaded, plugins)
  load_files dir (file ∷ files) loaded plugins =
      let added = load_file open_plugin (file_path dir file) plugins in
      load_files dir files (count_loaded added.0 loaded) added.1

  -- `loadDirectory`.
  unfoldable pub load_directory : List ℕ → List (Plugin fl) → ℕ × List (Plugin fl)
  unfolding load_files
  load_directory dir plugins = load_files dir (search_directory dir) 0 plugins

  unfoldable pub load_directories : List (List ℕ) → List (Plugin fl) → List (Plugin fl)
  unfolding load_directory
  load_directories [] plugins = plugins
  load_directories (dir ∷ dirs) plugins = load_directories dirs (load_directory dir plugins).1

  -- The files that are named when the library is built.
  unfoldable pub load_named : List (List ℕ) → List (Plugin fl) → List (Plugin fl)
  unfolding load_file
  load_named [] plugins = plugins
  load_named (file ∷ files) plugins = load_named files (load_file open_plugin file plugins).1

  -- The constructor, with `PRESSION_PLUGIN_PATH` and `LD_LIBRARY_PATH`.
  unfoldable pub construct :
      List (List ℕ)
      → List ℕ
      → List ℕ
      → Option (List ℕ)
      → Option (List ℕ)
      → Option (List (Plugin fl))
  unfolding load_named load_directories search_paths text_or_empty add_library_path
  construct named working_directory library_path plugin_path ld_path = do
    let text = add_library_path (text_or_empty plugin_path) ld_path
    paths ← search_paths (suc (length text)) text
    some (
        load_directories paths
          (load_directories (working_directory ∷ library_path ∷ []) (load_named named [])))
