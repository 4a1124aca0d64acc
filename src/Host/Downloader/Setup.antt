-- ===== src/Host/Downloader/Setup.antt =====
-- What setting up a downloader gives.
use pression.Base.{
  ℕ, ◌<◌, Bool, true, false, not, ◌&&◌, ◌||◌, ◌==◌, leb, ◌≡◌, refl, sym, arith, Bool-cases,
  Option-cases, inl, inr, List, Option, none, some,
}
use pression.Host.Plugins.{Numbers, Plugin}
use pression.Host.Registry.{find_plugin}
use pression.Host.Registry.Find.{find_info-find_plugin}
use pression.Host.Instance.{
  none_name, is_some, Instance, name_of, is_good_instance, clear_instance, clear_decompressor,
}
use pression.Host.Ownership.{is_consistent}
use pression.Host.Downloader.{is_refused, is_good, uses, set_plugin, setup}

module _ (fl : Numbers) (new_decompressor : Plugin fl → ℕ → Option ℕ)
    (gl : Option (Plugin fl → ℕ → Bool)) where
  -- A plugin is there, is not refused, and allocates an object for the name.
  abbrev pub obtains : ℕ → Option (Plugin fl) → Bool
  obtains name none = false
  obtains name (some plugin) =
      not (is_refused fl gl plugin name) && is_some (new_decompressor plugin name)

  clear-uses : (name : ℕ) (st : Instance fl) → uses fl name (clear_decompressor fl st) ≡ false
  unfolding uses is_good is_good_instance is_some clear_decompressor clear_instance
  clear-uses name st = ground arith

  clear-object : (st : Instance fl) → (clear_decompressor fl st).object ≡ none
  unfolding clear_decompressor clear_instance
  clear-object st = ground arith

  set_plugin-uses :
      (plugins : List (Plugin fl)) (name : ℕ) (st : Instance fl)
      → leb name none_name ≡ false
      → uses fl name st ≡ false
      → st.object ≡ none
      → let (done, after) = set_plugin fl new_decompressor gl name (find_plugin name plugins) st in
        (done ≡ uses fl name after) × (done ≡ obtains name (find_plugin name plugins))
  unfolding set_plugin
  set_plugin-uses plugins name st large unused empty =
      elim (Option-cases (find_plugin name plugins)) [
        | inl e ↦ rw e (sym unused, refl)
        | inr (p, e) ↦
            let (info, q, named) = find_info-find_plugin name plugins p e in
            elim (Bool-cases (is_refused fl gl p name)) [
              | inl r ↦ rw (e, r) (unfold uses is_good is_some in ground (arith, empty), refl)
              | inr r ↦
                  rw (e, r, q)
                    (
                      unfold uses is_good is_good_instance is_some name_of in
                          ground (arith, named, large),
                      refl,
                    )
            ]
      ]

-- Unless the downloader has the name without an object, after an allocation that failed: for a name above
-- EQ_COMPRESSOR_NONE, `setup` succeeds exactly if the downloader uses the name behind it, which is the case exactly
-- if it used the name already, or a plugin implements it, is not refused for the GL context, and allocates a
-- downloader; for the other names it succeeds.
pub downloader_setup :
    (fl : Numbers) (new_decompressor : Plugin fl → ℕ → Option ℕ)
    (gl : Option (Plugin fl → ℕ → Bool)) (plugins : List (Plugin fl)) (name : ℕ) (st : Instance fl)
    → is_consistent st ≡ true
    → (is_some st.object || not (name == name_of fl st.info)) ≡ true
    → let (done, after) = setup fl new_decompressor gl plugins name st in
      (done ≡ (leb name none_name || uses fl name after))
      × (done ≡ (
          leb name none_name
          || uses fl name st
          || obtains fl new_decompressor gl name (find_plugin name plugins)))
unfolding setup
downloader_setup fl new_decompressor gl plugins name st valid held =
    elim (Bool-cases (name == name_of fl st.info)) [
      | inl e ↦
          let used : (leb name none_name || uses fl name st) ≡ true =
            unfold uses is_good is_good_instance is_consistent in ground (arith, e, held, valid) in
          rw e (sym used, ground (arith, used))
      | inr e ↦ elim (Bool-cases (leb name none_name)) [
        | inl f ↦ rw (e, f) (refl, refl)
        | inr f ↦
            let unused : uses fl name st ≡ false = unfold uses in ground (arith, e) in
            rw (e, f, unused)
              (set_plugin-uses fl new_decompressor gl plugins name (clear_decompressor fl st) f
                (clear-uses fl new_decompressor gl name st)
                (clear-object fl new_decompressor gl st))
      ]
    ]

-- If the plugin that implements a name, which is above EQ_COMPRESSOR_NONE, is not refused and fails to allocate a
-- downloader, `setup` fails, for a downloader that has another name; but `setup` with the same name once more then
-- succeeds, although the downloader does not use the name.
pub downloader_setup_again :
    (fl : Numbers) (new_decompressor : Plugin fl → ℕ → Option ℕ)
    (gl : Option (Plugin fl → ℕ → Bool)) (plugins : List (Plugin fl)) (name : ℕ) (st : Instance fl)
    (p : Plugin fl)
    → none_name < name
    → (name == name_of fl st.info) ≡ false
    → find_plugin name plugins ≡ some p
    → is_refused fl gl p name ≡ false
    → new_decompressor p name ≡ none
    → let (done, after) = setup fl new_decompressor gl plugins name st in
      let (done', after') = setup fl new_decompressor gl plugins name after in
      (done ≡ false) × (done' ≡ true) × (uses fl name after' ≡ false)
unfolding setup set_plugin
downloader_setup_again fl new_decompressor gl plugins name st p above other found fine fails =
    let (info, q, named) = find_info-find_plugin name plugins p found in
    let large : leb name none_name ≡ false = ground arith in
    let known : (name == info.name) ≡ true = ground (arith, named) in
    rw (other, large, found, fine, fails, q)
      (
        unfold is_some in refl,
        unfold name_of in rw known refl,
        unfold uses is_good is_good_instance is_some name_of in rw known (ground arith),
      )
