-- ===== src/Host/Chosen.antt =====
-- From the choice of a compressor to the image that comes back: the host library with the plugin of this
-- repository as the only one that its registry loaded.
pub mod Names
use mathlib.Core.Path.{subst}
use pression.Base.{
  ℕ, ◌+◌, ◌^◌, ◌≤◌, ◌<◌, ◌≡◌, refl, sym, ap, ◌∙◌, arith, true, false, not, ◌||◌, leb, inl, inr,
  List, [], ◌∷◌, ◌++◌, map, length, drop, get_elem?-append_last, Option, none, some,
}
use pression.Rle.{◌>>=◌}
use pression.Plugin.Float.Binary.{binary32, binary32-IsExact}
use pression.Plugin.Codec.Serial.{NoneEmpty}
use pression.Plugin.Codec.Stored.{Reserves}
use pression.Plugin.Dims.{Dims, has_flag, count_pixels, ignore_alpha_flag}
use pression.Plugin.Class.{pixel_size}
use pression.Plugin.Class.RoundTrip.{kept, ArePixels}
use pression.Plugin.Engines.{Functions}
use pression.Plugin.Api
use pression.Plugin.Api.{search_functions, find_functions, or_else, instance_at, new_compressor}
use pression.Host.Plugins.{Numbers, Info, Plugin, implements_type}
use pression.Host.Loader.{construct}
use pression.Host.Registry.{find_plugin}
use pression.Host.Registry.Find.{find_plugin-first_with}
use pression.Host.Ownership.{is_consistent}
use pression.Host.Instance.{none_name, is_some, Instance, fresh, name_of}
use pression.Base.Best
use pression.Base.Best.{best, best-IsOffered}
use pression.Host.Compressor.{Wish, choose, no_candidate, set_plugin, setup, setup_choice}
use pression.Host.Compressor.Choose.{is_eligible, offer, better, choose_info-best}
use pression.Host.Compressor.Setup.{setup-uses}
use pression.Host.Compressor.Results.{compress, get_result}
use pression.Host.Decompressor
use pression.Host.Decompressor.{Result, decompress}
use pression.Host.Decompressor.Setup.{decompressor_setup}
use pression.Host.RoundTrip.{api_entries, api_decompress, host_round_trip}
use pression.Host.Chosen.Names.{api_library, AreNamed, IsKnown, infos-AllKnown, offered-IsKnown}

module _ (fl : Numbers) (hundredths : ℕ → fl.Number) (s : Api.State) (blank : Info fl)
    (file : List ℕ) (wish : Wish fl) where
  -- The plugin in the registry, and what is chosen.
  abbrev pub own_plugin : Plugin fl
  own_plugin = construct fl file (api_library fl hundredths s) blank

  abbrev pub chosen : ℕ
  chosen = choose fl wish (own_plugin ∷ [])

  -- It is the name of an engine of the plugin, unless nothing fits.
  chosen-IsKnown :
      (fs : List Functions)
      → s.functions ≡ some fs
      → AreNamed fs
      → none_name < chosen
      → IsKnown chosen fs × (find_plugin chosen (own_plugin ∷ []) ≡ some own_plugin)
  unfolding choose
  chosen-IsKnown fs table named above =
      let start = no_candidate fl in
      let found = best (is_eligible fl wish) (offer fl wish) (better fl) own_plugin.infos start in
      let e : chosen ≡ found.name =
        ap (λ c. c.name) (choose_info-best fl wish own_plugin.infos start) in
      subst (λ n. IsKnown n fs × (find_plugin n (own_plugin ∷ []) ≡ some own_plugin)) (sym e)
        (elim (best-IsOffered (is_eligible fl wish) (offer fl wish) (better fl) own_plugin.infos
          start) [
            | inl same ↦ absurd (omega (arith, above, e, ap (λ c. c.name) same))
            | inr member ↦
                let (known, implemented) =
                  offered-IsKnown fl hundredths s fs table named blank wish own_plugin.infos found
                    (infos-AllKnown fl hundredths s fs table named blank file) member in
                (known, find_plugin-first_with found.name (own_plugin ∷ []) ∙ rw implemented refl)
          ])

-- How the host allocates objects of the plugin.
abbrev pub api_new_compressor : {fl : Numbers} → Api.State → Plugin fl → ℕ → Option ℕ
api_new_compressor s plugin name = do (ptr, after) ← new_compressor name s; some ptr

abbrev pub api_new_decompressor : {fl : Numbers} → Api.State → Plugin fl → ℕ → Option ℕ
api_new_decompressor s plugin name = do object ← Api.new_decompressor name s; object

made-class :
    (name : ℕ) (s : Api.State) (g : Functions)
    → find_functions name s ≡ some g
    → (after : Api.State) × (new_compressor name s ≡ some (length s.instances, after))
      × (find_functions name after ≡ some g)
      × (object : Api.Instance) × (instance_at (length s.instances) after ≡ some object)
      × (object.class ≡ g.class)
unfolding new_compressor find_functions instance_at
made-class name s g found =
    let made : Api.Instance = record {
      class = g.class;
      results = record { buffers = []; n_results = 0 };
    } in
    (
      record s { instances = s.instances ++ (some made ∷ []) },
      rw found refl,
      found,
      made,
      rw (get_elem?-append_last s.instances (some made)) refl,
      refl,
    )

find_functions-known :
    (name : ℕ) (s : Api.State) (fs : List Functions) (g : Functions)
    → s.functions ≡ some fs
    → search_functions name fs ≡ some g
    → find_functions name s ≡ some g
unfolding find_functions or_else
find_functions-known name s fs g table known = rw (table, known) refl

-- Setting up a new compressor keeps the object that the plugin made.
setup-object :
    (fl : Numbers) (new : Plugin fl → ℕ → Option ℕ) (plugins : List (Plugin fl)) (name ptr : ℕ)
    (p : Plugin fl)
    → none_name < name
    → find_plugin name plugins ≡ some p
    → new p name ≡ some ptr
    → (setup fl new plugins name (fresh fl)).1.object ≡ some ptr
unfolding setup set_plugin is_some fresh
setup-object fl new plugins name ptr p above found made =
    let large : leb name none_name ≡ false = ground (arith, above) in rw (large, found, made) refl

-- Setting up a new decompressor succeeds, and it uses the name.
setup-decompressor :
    (fl : Numbers) (new : Plugin fl → ℕ → Option ℕ) (plugins : List (Plugin fl)) (name : ℕ)
    (p : Plugin fl)
    → none_name < name
    → find_plugin name plugins ≡ some p
    → let (done, d) = Decompressor.setup fl new plugins name (fresh fl) in
      (done ≡ true) × (Decompressor.uses fl name d ≡ true)
unfolding is_some
setup-decompressor fl new plugins name p above found =
    let large : leb name none_name ≡ false = ground (arith, above) in
    let (e, f) = decompressor_setup fl new plugins name (fresh fl) in
    (ground (arith, f, large, found), ground (arith, e, f, large, found))

-- With the plugin of this repository in the registry, each of whose engines gives its own name, in a serial build with
-- the arithmetic of IEEE 754 and memory that has the size that is reserved for it or more: if `choose` finds any
-- compressor for a wish, it is a registered engine. Setting up a new compressor with this choice and a new decompressor
-- with its name then succeeds, and compressing an image of one pixel to 2 ^ 24 pixels of that engine's type, getting the
-- result, none of whose chunks is empty, and decompressing it writes what the engine's class keeps of each pixel, and
-- changes nothing behind the image. The plugin may have made other objects before.
pub chosen_round_trip :
    (fl : Numbers) (hundredths : ℕ → fl.Number) (s : Api.State) (fs : List Functions)
    (blank : Info fl) (file : List ℕ) (wish : Wish fl) (capacity : ℕ → List ℕ → ℕ)
    (image out : List ℕ) (dims : Dims) (flags : ℕ)
    → let name = chosen fl hundredths s blank file wish in
      let plugins = own_plugin fl hundredths s blank file wish ∷ [] in
      s.functions ≡ some fs
      → AreNamed fs
      → none_name < name
      → Reserves capacity
      → 0 < length image
      → length image ≤ 2 ^ 24
      → count_pixels dims flags ≡ length image
      → ((g : Functions) → search_functions name fs ≡ some g → ArePixels (pixel_size g.class) image)
      → length image ≤ length out
      → let (done, c) = setup_choice fl (api_new_compressor s) plugins wish (fresh fl) in
        (g : Functions) × (search_functions name fs ≡ some g)
        × (done ≡ true)
        × (made : Api.State) × (new_compressor name s ≡ some (length s.instances, made))
        × (let (done', d) =
              Decompressor.setup fl (api_new_decompressor made) plugins name (fresh fl) in
            (done' ≡ true)
            × (after : Api.State) × (compress
                  (api_entries fl binary32 capacity)
                  image
                  dims
                  flags
                  c
                  made
                ≡ some after)
            × (result : Result) × (get_result (api_entries fl binary32 capacity) c after
                ≡ some result)
            × NoneEmpty result.chunks
            × (decompress fl (api_decompress fl binary32 capacity after) result out dims flags d
                ≡ some (
                  true,
                  map (kept g.class (not (has_flag flags ignore_alpha_flag))) image
                      ++ drop (length image) out,
                )))
unfolding setup_choice
chosen_round_trip fl hundredths s fs blank file wish capacity image out dims flags table named above
      reserves pos small count pixels fits =
    let name = chosen fl hundredths s blank file wish in
    let p = own_plugin fl hundredths s blank file wish in
    let ((g, known), found) = chosen-IsKnown fl hundredths s blank file wish fs table named above in
    let registered : find_functions name s ≡ some g =
      find_functions-known name s fs g table known in
    let (made, e, still, object, valid, same) = made-class name s g registered in
    let new : api_new_compressor s p name ≡ some (length s.instances) = rw e refl in
    let (done, used, _) =
      setup-uses fl (api_new_compressor s) (p ∷ []) name (length s.instances) (fresh fl) p
        (unfold is_consistent is_some fresh in refl) above found new in
    let (done', used') =
      setup-decompressor fl (api_new_decompressor made) (p ∷ []) name p above found in
    let c = (setup fl (api_new_compressor s) (p ∷ []) name (fresh fl)).1 in
    let d = (Decompressor.setup fl (api_new_decompressor made) (p ∷ []) name (fresh fl)).1 in
    let (after, compressed, result, got, filled, decompressed) =
      host_round_trip fl binary32 capacity name (length s.instances) c d made g object image out
        dims flags used
        (setup-object fl (api_new_compressor s) (p ∷ []) name (length s.instances) p above found
          new)
        used' still valid same reserves binary32-IsExact pos small count (pixels g known) fits in
    (g, known, done, made, e, (done', after, compressed, result, got, filled, decompressed))
