-- ===== src/Host/Chosen/Names.antt =====
-- The engines of the plugin of this repository as the host library sees them: pression/plugin.cpp reads
-- their infos through the C interface in pression/compressor/compressor.cpp.
use mathlib.Core.Path.{subst}
use pression.Base.{
  ℕ, zero, suc, ◌+◌, ◌<◌, ◌≡◌, refl, sym, arith, Bool, true, false, ◌==◌, if◌then◌else◌, Bool-cases,
  inl, inr, List, [], ◌∷◌, length, get_elem?, Option, none, some,
}
use pression.Plugin.Engines.{Functions}
use pression.Plugin.Engines as Engines
use pression.Plugin.Api
use pression.Plugin.Api.{search_functions, find_functions}
use pression.Host.Plugins.{Numbers, Info, implements_type}
use pression.Host.Loader.{Library, construct, complete_info, initial_info}
use pression.Host.Loader.Infos.{reported, completed, is_usable, reported_infos, construct-completed}
use pression.Base.Best
use pression.Host.Compressor.{Wish, Candidate}
use pression.Host.Compressor.Choose.{is_eligible, offer, better}

-- Every engine gives its own name in its info.
abbrev pub AreNamed : List Functions → Type 0
AreNamed [] = Unit {0}
AreNamed (f ∷ fs) = (f.info.name ≡ f.name) × AreNamed fs

module _ (fl : Numbers) (hundredths : ℕ → fl.Number) (s : Api.State) where
  -- What `EqCompressorGetInfo` leaves of an info; its numbers are those of single precision.
  abbrev filled : Option Engines.Info → Info fl → Info fl
  filled none info = info
  filled (some given) info = record info {
    name = given.name;
    token_type = given.token_type;
    capabilities = given.capabilities;
    quality = hundredths given.quality;
    ratio = hundredths given.ratio;
    speed = hundredths given.speed;
  }

  -- The plugin as a dynamic library.
  abbrev pub api_library : Library fl
  api_library = record {
    is_open = true;
    get_num_compressors = some (Api.get_num_compressors s).0;
    get_info = some (λ i info. filled (Api.get_info i s) info);
    new_compressor = true;
    new_decompressor = true;
    delete_compressor = true;
    delete_decompressor = true;
    compress = true;
    decompress = true;
    get_num_results = true;
    get_result = true;
    is_compatible = true;
    download = true;
    upload = true;
    start_download = true;
    finish_download = false;
  }

-- The name is registered.
abbrev pub IsKnown : ℕ → List Functions → Type 0
IsKnown name fs = (g : Functions) × (search_functions name fs ≡ some g)

-- The name of every element is registered.
elem-IsKnown :
    (i : ℕ) (fs : List Functions)
    → i < length fs
    → AreNamed fs
    → (f : Functions) × (get_elem? fs i ≡ some f) × IsKnown f.info.name fs
unfolding search_functions
elem-IsKnown i [] h named = absurd (omega arith)
elem-IsKnown zero (f ∷ fs) h named = (f, refl, (f, ground (arith, named.0)))
elem-IsKnown (suc i) (f ∷ fs) h named =
    let (g, e, (k, known)) = elem-IsKnown i fs (omega arith) named.1 in
    elim (Bool-cases (f.name == g.info.name)) [
      | inl same ↦ (g, e, (f, rw same refl))
      | inr other ↦ (g, e, (k, rw (other, known) refl))
    ]

module _ (fl : Numbers) (hundredths : ℕ → fl.Number) (s : Api.State) (fs : List Functions)
    (table : s.functions ≡ some fs) (named : AreNamed fs) (blank : Info fl) where
  abbrev pub AllKnown : List (Info fl) → Type 0
  AllKnown [] = Unit {0}
  AllKnown (info ∷ infos) = IsKnown info.name fs × AllKnown infos

  info-IsKnown :
      (i : ℕ) (info : Info fl)
      → i < length fs
      → IsKnown (complete_info fl (filled fl hundredths s (Api.get_info i s) info)).name fs
  unfolding complete_info Api.get_info
  info-IsKnown i info h = let (f, e, known) = elem-IsKnown i fs h named in rw (table, e) known

  reported-AllKnown :
      (k i : ℕ)
      → i + k ≡ length fs
      → AllKnown (
          completed fl (api_library fl hundredths s) blank (
            reported fl
              (api_library fl hundredths s)
              blank
              (λ i info. filled fl hundredths s (Api.get_info i s) info)
              k
              i))
  reported-AllKnown zero i h = tt
  reported-AllKnown (suc k) i h = (
    info-IsKnown i (initial_info fl blank) (omega arith),
    reported-AllKnown k (i + 1) (omega arith),
  )

  if-AllKnown :
      (usable : Bool) (infos : List (Info fl))
      → AllKnown infos
      → AllKnown (if usable then infos else [])
  if-AllKnown true infos known = known
  if-AllKnown false infos known = tt

  counted : (Api.get_num_compressors s).0 ≡ length fs
  unfolding Api.get_num_compressors
  counted = rw table refl

  pub infos-AllKnown :
      (file : List ℕ) → AllKnown (construct fl file (api_library fl hundredths s) blank).infos
  infos-AllKnown file =
      let lib = api_library fl hundredths s in
      let (_, e) = construct-completed fl file lib blank in
      subst AllKnown (sym e) (
        if-AllKnown (is_usable fl lib blank lib.get_num_compressors lib.get_info)
          (completed fl lib blank
            (reported_infos fl lib blank lib.get_num_compressors lib.get_info))
          (reported-AllKnown (Api.get_num_compressors s).0 0 (omega (arith, counted))))

  -- What is chosen is the name of an engine, which the plugin implements.
  pub offered-IsKnown :
      (wish : Wish fl) (infos : List (Info fl)) (c : Candidate fl)
      → AllKnown infos
      → Best.IsOffered (is_eligible fl wish) (offer fl wish) (better fl) c infos
      → IsKnown c.name fs × (implements_type fl c.name infos ≡ true)
  unfolding implements_type
  offered-IsKnown wish [] c known member = absurd member
  offered-IsKnown wish (info ∷ infos) c known (inl (_, same)) = rw same (known.0, ground arith)
  offered-IsKnown wish (info ∷ infos) c known (inr member) =
      let (k, implemented) = offered-IsKnown wish infos c known.1 member in
      (k, ground (arith, implemented))
