-- ===== src/Host/RoundTrip.antt =====
-- The host library on top of the plugin of this repository: pression/compressor.cpp and
-- pression/decompressor.cpp call pression/compressor/compressor.cpp.
use mathlib.Core.Path.{subst}
use pression.Base.{
  ℕ, zero, suc, ◌+◌, ◌^◌, ◌≤◌, ◌<◌, ◌≡◌, refl, sym, ap, ◌∙◌, arith, true, not, ◌==◌, List, [], ◌∷◌,
  ◌++◌, map, length, drop, Option-cases, inl, inr, some,
}
use pression.Plugin.Float.{Float32, IsExact}
use pression.Plugin.Codec.{serial}
use pression.Plugin.Codec.Serial.{NoneEmpty}
use pression.Plugin.Codec.Stored.{Reserves}
use pression.Plugin.Dims.{Dims, has_flag, count_pixels, ignore_alpha_flag}
use pression.Plugin.Class.{pixel_size}
use pression.Plugin.Class.RoundTrip.{kept, ArePixels}
use pression.Plugin.Engines.{Functions}
use pression.Plugin.Api
use pression.Plugin.Api.{find_functions, instance_at}
use pression.Plugin.Api.RoundTrip.{decompress-get_results, length-get_results}
use pression.Host.Plugins.{Numbers, Plugin}
use pression.Host.Instance.{is_some, Instance, name_of, is_good_instance}
use pression.Host.Compressor.{is_good, uses}
use pression.Host.Compressor.Results.{Entries, compress, collect, get_result}
use pression.Host.Decompressor
use pression.Host.Decompressor.{Result, Decompress, is_empty, decompress}

module _ (fl : Numbers) (f32 : Float32) (capacity : ℕ → List ℕ → ℕ) where
  -- The entry points of the plugin of this repository, in a serial build.
  abbrev pub api_entries : Entries fl Api.State
  api_entries = record {
    compress_image = λ plugin object name image dims flags s.
        Api.compress f32 (serial capacity) object image dims flags s;
    count_results = λ plugin object name s. Api.get_num_results object s;
    result_at = λ plugin object name i s. Api.get_result object i s;
  }

  abbrev pub api_decompress : Api.State → Decompress fl
  api_decompress s = λ plugin object name inputs out dims flags.
      Api.decompress f32 (serial capacity) name inputs out dims flags s

  collect-get_results :
      (plugin : Plugin fl) (ptr name k i : ℕ) (s : Api.State)
      → collect api_entries plugin ptr name k i s ≡ Api.get_results ptr k i s
  unfolding collect Api.get_results
  collect-get_results plugin ptr name zero i s = refl
  collect-get_results plugin ptr name (suc k) i s =
      rw (collect-get_results plugin ptr name k (i + 1) s) refl

-- What a compressor that uses a name has.
record HasPlugin {fl : Numbers} (name : ℕ) (st : Instance fl) : Type 0 where
  plugin : Plugin fl
  is_plugin : st.plugin ≡ some plugin
  is_named : name_of fl st.info ≡ name

module _ {fl : Numbers} where
  good-HasPlugin :
      (name : ℕ) (st : Instance fl)
      → is_good_instance fl st ≡ true
      → (name_of fl st.info == name) ≡ true
      → HasPlugin name st
  unfolding is_good_instance is_some
  good-HasPlugin name st good named = elim (Option-cases st.plugin) [
    | inl e ↦ absurd (ground (arith, e, good))
    | inr (p, e) ↦ record { plugin = p; is_plugin = e; is_named = ground (arith, named) }
  ]

module _ {fl : Numbers} (f32 : Float32) (capacity : ℕ → List ℕ → ℕ) (ptr name : ℕ) (c : Instance fl)
    (h : HasPlugin name c) (good : is_good fl c ≡ true) (held : c.object ≡ some ptr) where
  compress-api :
      (image : List ℕ) (dims : Dims) (flags : ℕ) (s : Api.State)
      → compress (api_entries fl f32 capacity) image dims flags c s
        ≡ Api.compress f32 (serial capacity) ptr image dims flags s
  unfolding compress
  compress-api image dims flags s = rw (good, h.is_plugin, held) refl

  get_result-api :
      (s : Api.State) (n : ℕ) (results : List (List ℕ))
      → Api.get_num_results ptr s ≡ some n
      → Api.get_results ptr n 0 s ≡ some results
      → get_result (api_entries fl f32 capacity) c s
        ≡ some (record { compressor = name; chunks = results })
  unfolding get_result
  get_result-api s n results p q =
      rw
        (
          good,
          h.is_plugin,
          held,
          p,
          collect-get_results fl f32 capacity h.plugin ptr (name_of fl c.info) n 0 s,
          q,
          h.is_named,
        )
        refl

module _ {fl : Numbers} (f32 : Float32) (capacity : ℕ → List ℕ → ℕ) (name : ℕ) (d : Instance fl)
    (h : HasPlugin name d) (used : Decompressor.uses fl name d ≡ true) where
  decompress-api :
      (s : Api.State) (chunk : List ℕ) (chunks : List (List ℕ)) (out after : List ℕ) (dims : Dims)
      (flags : ℕ)
      → Api.decompress f32 (serial capacity) name (chunk ∷ chunks) out dims flags s ≡ some after
      → decompress fl
          (api_decompress fl f32 capacity s)
          (record { compressor = name; chunks = chunk ∷ chunks })
          out
          dims
          flags
          d
        ≡ some (true, after)
  unfolding decompress is_empty
  decompress-api s chunk chunks out after dims flags e = rw (used, h.is_plugin, h.is_named, e) refl

uses-HasPlugin :
    (fl : Numbers) (name : ℕ) (c : Instance fl)
    → uses fl name c ≡ true
    → (is_good fl c ≡ true) × HasPlugin name c
unfolding uses is_good
uses-HasPlugin fl name c h =
    (ground (arith, h), good-HasPlugin name c (ground (arith, h)) (ground (arith, h)))

decompressor-HasPlugin :
    (fl : Numbers) (name : ℕ) (d : Instance fl)
    → Decompressor.uses fl name d ≡ true
    → HasPlugin name d
unfolding Decompressor.uses
decompressor-HasPlugin fl name d h = good-HasPlugin name d (ground (arith, h)) (ground (arith, h))

four_results :
    (results : List (List ℕ))
    → length results ≡ 4
    → (chunk : List ℕ) × (chunks : List (List ℕ)) × (results ≡ chunk ∷ chunks)
four_results [] h = absurd (omega (arith, h))
four_results (chunk ∷ chunks) h = (chunk, chunks, refl)

-- In a serial build, with arithmetic that is exact for the one chunk, and memory that has the size that is reserved for
-- it or more: if a compressor of the host uses a name that the plugin registered, with an object that the plugin made
-- for it, and a decompressor uses the same name, then compressing an image of one pixel to 2 ^ 24 pixels of the
-- class's type succeeds, `getResult` gives its result, none of whose chunks is empty, and the decompressor accepts that
-- result and writes what the class keeps of each pixel.
pub host_round_trip :
    (fl : Numbers) (f32 : Float32) (capacity : ℕ → List ℕ → ℕ) (name ptr : ℕ) (c d : Instance fl)
    (s : Api.State) (f : Functions) (object : Api.Instance) (image out : List ℕ) (dims : Dims)
    (flags : ℕ)
    → uses fl name c ≡ true
    → c.object ≡ some ptr
    → Decompressor.uses fl name d ≡ true
    → find_functions name s ≡ some f
    → instance_at ptr s ≡ some object
    → object.class ≡ f.class
    → Reserves capacity
    → IsExact f32
    → 0 < length image
    → length image ≤ 2 ^ 24
    → count_pixels dims flags ≡ length image
    → ArePixels (pixel_size f.class) image
    → length image ≤ length out
    → (after : Api.State) × (compress (api_entries fl f32 capacity) image dims flags c s
        ≡ some after)
      × (result : Result) × (get_result (api_entries fl f32 capacity) c after ≡ some result)
      × NoneEmpty result.chunks
      × (decompress fl (api_decompress fl f32 capacity after) result out dims flags d
          ≡ some (
            true,
            map (kept f.class (not (has_flag flags ignore_alpha_flag))) image
                ++ drop (length image) out,
          ))
host_round_trip fl f32 capacity name ptr c d s f object image out dims flags used held used' found
      valid same reserves exact pos small count pixels fits =
    let (good, h) = uses-HasPlugin fl name c used in
    let h' = decompressor-HasPlugin fl name d used' in
    let (after, e, n, counted, four, results, collected, filled, e') =
      decompress-get_results f32 capacity name ptr s f object image out dims flags found valid same
        reserves exact pos small count pixels fits in
    let (chunk, chunks, split) =
      four_results results (length-get_results ptr n 0 after results collected ∙ four) in
    (
      after,
      compress-api f32 capacity ptr name c h good held image dims flags s ∙ e,
      record { compressor = name; chunks = chunk ∷ chunks },
      get_result-api f32 capacity ptr name c h good held after n (chunk ∷ chunks) counted
          (collected ∙ ap some split),
      subst NoneEmpty split filled,
      decompress-api f32 capacity name d h' used' after chunk chunks out _ dims flags (
          ap (λ r. Api.decompress f32 (serial capacity) name r out dims flags after) (sym split)
          ∙ e'),
    )
