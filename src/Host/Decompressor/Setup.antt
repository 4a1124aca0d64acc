-- ===== src/Host/Decompressor/Setup.antt =====
-- What setting up a decompressor gives.
use pression.Base.{
  ℕ, true, false, ◌&&◌, ◌||◌, ◌==◌, leb, ◌≡◌, refl, sym, arith, Bool-cases, Option-cases, inl, inr,
  List, Option,
}
use pression.Host.Plugins.{Numbers, Plugin}
use pression.Host.Registry.{find_plugin}
use pression.Host.Registry.Find.{find_info-find_plugin}
use pression.Host.Instance.{
  none_name, is_some, Instance, name_of, is_good_instance, clear_instance, clear_decompressor,
}
use pression.Host.Decompressor.{uses, set_plugin, setup}

module _ (fl : Numbers) where
  clear-uses : (name : ℕ) (st : Instance fl) → uses fl name (clear_decompressor fl st) ≡ false
  unfolding uses is_good_instance is_some clear_decompressor clear_instance
  clear-uses name st = ground arith

  set_plugin-uses :
      (new_decompressor : Plugin fl → ℕ → Option ℕ) (plugins : List (Plugin fl)) (name : ℕ)
      (st : Instance fl)
      → leb name none_name ≡ false
      → uses fl name st ≡ false
      → let (done, after) = set_plugin fl new_decompressor name (find_plugin name plugins) st in
        (done ≡ uses fl name after) × (done ≡ is_some (find_plugin name plugins))
  unfolding set_plugin
  set_plugin-uses new_decompressor plugins name st large unused =
      elim (Option-cases (find_plugin name plugins)) [
        | inl e ↦ rw e (sym unused, unfold is_some in refl)
        | inr (p, e) ↦
            let (info, q, named) = find_info-find_plugin name plugins p e in
            rw (e, q)
              (
                unfold uses is_good_instance is_some name_of in ground (arith, named, large),
                unfold is_some in refl,
              )
      ]

-- Whatever the decompressor was used for before: for a name above EQ_COMPRESSOR_NONE, `setup` succeeds exactly
-- if the decompressor uses the name behind it, which is the case exactly if it used the name already or a
-- plugin implements the name; for the other names it succeeds.
pub decompressor_setup :
    (fl : Numbers) (new_decompressor : Plugin fl → ℕ → Option ℕ) (plugins : List (Plugin fl))
    (name : ℕ) (st : Instance fl)
    → let (done, after) = setup fl new_decompressor plugins name st in
      (done ≡ (leb name none_name || uses fl name after))
      × (done ≡ (leb name none_name || uses fl name st || is_some (find_plugin name plugins)))
unfolding setup
decompressor_setup fl new_decompressor plugins name st =
    elim (Bool-cases (is_some st.plugin && name_of fl st.info == name)) [
      | inl e ↦
          let used : (leb name none_name || uses fl name st) ≡ true =
            unfold uses is_good_instance in ground (arith, e) in
          rw e (sym used, ground (arith, used))
      | inr e ↦ elim (Bool-cases (leb name none_name)) [
        | inl f ↦ rw (e, f) (refl, refl)
        | inr f ↦
            let unused : uses fl name st ≡ false =
              unfold uses is_good_instance in ground (arith, e) in
            rw (e, f, unused)
              (set_plugin-uses fl new_decompressor plugins name (clear_decompressor fl st) f
                (clear-uses fl name st))
      ]
    ]
