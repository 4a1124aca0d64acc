-- ===== src/Host/Loader/Infos.antt =====
-- Which libraries give a plugin, and what its infos are.
use pression.Base.{
  ℕ, zero, suc, ◌+◌, ◌≡◌, refl, Bool, true, false, not, ◌&&◌, ◌||◌, ◌==◌, arith, Bool-cases, inl,
  inr, if◌then◌else◌, List, [], ◌∷◌, Option, none, some,
}
use pression.Host.Plugins.{Numbers, Info, is_good}
use pression.Host.Loader.{
  Library, has_base, has_cpu, has_gpu, complete_info, initial_info, is_unsupported, load_infos,
  infos_or_none, construct_infos, construct,
}

module _ (fl : Numbers) (lib : Library fl) (blank : Info fl) where
  -- The infos that the library reports from `i` on, `k` of them.
  abbrev pub reported : (ℕ → Info fl → Info fl) → ℕ → ℕ → List (Info fl)
  reported get_info zero i = []
  reported get_info (suc k) i = get_info i (initial_info fl blank) ∷ reported get_info k (i + 1)

  -- The entry points for asynchronous downloads are there if an info asks for them.
  abbrev pub all_supported : List (Info fl) → Bool
  all_supported [] = true
  all_supported (info ∷ infos) = not (is_unsupported fl lib info) && all_supported infos

  abbrev pub completed : List (Info fl) → List (Info fl)
  completed [] = []
  completed (info ∷ infos) = complete_info fl info ∷ completed infos

  -- The library can be used with what its two entry points report.
  abbrev pub is_usable : Option ℕ → Option (ℕ → Info fl → Info fl) → Bool
  is_usable none get_info = false
  is_usable (some n) none = false
  is_usable (some n) (some get_info) =
      lib.is_open
      && has_base fl lib
      && (has_cpu fl lib || has_gpu fl lib)
      && not (n == 0)
      && all_supported (reported get_info n 0)

  abbrev pub reported_infos : Option ℕ → Option (ℕ → Info fl → Info fl) → List (Info fl)
  reported_infos none get_info = []
  reported_infos (some n) none = []
  reported_infos (some n) (some get_info) = reported get_info n 0

  load_infos-reported :
      (get_info : ℕ → Info fl → Info fl) (k i : ℕ)
      → load_infos fl lib get_info blank k i ≡ (
          if all_supported (reported get_info k i)
          then some (completed (reported get_info k i))
          else none)
  unfolding load_infos
  load_infos-reported get_info zero i = refl
  load_infos-reported get_info (suc k) i =
      elim (Bool-cases (is_unsupported fl lib (get_info i (initial_info fl blank)))) [
        | inl e ↦ rw e refl
        | inr e ↦ elim (Bool-cases (all_supported (reported get_info k (i + 1)))) [
          | inl f ↦ rw (e, load_infos-reported get_info k (i + 1), f) refl
          | inr f ↦ rw (e, load_infos-reported get_info k (i + 1), f) refl
        ]
      ]

  construct_infos-reported :
      (count : Option ℕ) (get_info : Option (ℕ → Info fl → Info fl))
      → (if lib.is_open then construct_infos fl lib blank count get_info else [])
        ≡ (if is_usable count get_info then completed (reported_infos count get_info) else [])
  unfolding construct_infos infos_or_none
  construct_infos-reported none get_info = ground arith
  construct_infos-reported (some n) none = ground arith
  construct_infos-reported (some n) (some get_info) =
      rw (load_infos-reported get_info n 0) (ground arith)

  usable_infos :
      (count : Option ℕ) (get_info : Option (ℕ → Info fl → Info fl))
      → is_good fl (record {
        file = [];
        infos = if is_usable count get_info then completed (reported_infos count get_info) else [];
      })
        ≡ is_usable count get_info
  unfolding is_good
  usable_infos none get_info = refl
  usable_infos (some n) none = refl
  usable_infos (some zero) (some get_info) = ground arith
  usable_infos (some (suc n)) (some get_info) = ground arith

-- A plugin is good exactly if its library is open, has the entry points of a base interface and those for either
-- the CPU or the GPU, reports at least one engine, and has the entry points for asynchronous downloads if an engine
-- asks for them. Its infos are then those that the library reports, in order and completed, and none otherwise.
pub construct-completed :
    (fl : Numbers) (file : List ℕ) (lib : Library fl) (blank : Info fl)
    → let plugin = construct fl file lib blank in
      let usable = is_usable fl lib blank lib.get_num_compressors lib.get_info in
      (is_good fl plugin ≡ usable)
      × (plugin.infos ≡ (
          if usable
          then completed fl lib blank
              (reported_infos fl lib blank lib.get_num_compressors lib.get_info)
          else []))
unfolding construct
construct-completed fl file lib blank =
    let e = construct_infos-reported fl lib blank lib.get_num_compressors lib.get_info in
    (rw e (unfold is_good in usable_infos fl lib blank lib.get_num_compressors lib.get_info), e)
