-- ===== src/Host/Compressor/Setup.antt =====
-- When a compressor that was set up can be used.
use pression.Base.{
  ℕ, ◌<◌, true, false, ◌&&◌, ◌==◌, leb, ◌≡◌, refl, arith, Bool-cases, inl, inr, List, Option, some,
}
use pression.Host.Plugins.{Numbers, Plugin}
use pression.Host.Registry.{find_plugin}
use pression.Host.Registry.Find.{find_info-find_plugin}
use pression.Host.Ownership.{is_consistent}
use pression.Host.Instance.{none_name, is_some, Instance, name_of, is_good_instance}
use pression.Host.Compressor.{is_good, uses, set_plugin, setup}

-- If a plugin implements the name, which is above EQ_COMPRESSOR_NONE, and allocates a compressor for it,
-- `setup` succeeds, whatever the compressor was used for before; behind it the compressor is good and uses
-- the name, and its object still belongs to its plugin.
pub setup-uses :
    (fl : Numbers) (new_compressor : Plugin fl → ℕ → Option ℕ) (plugins : List (Plugin fl))
    (name object : ℕ) (st : Instance fl) (p : Plugin fl)
    → is_consistent st ≡ true
    → none_name < name
    → find_plugin name plugins ≡ some p
    → new_compressor p name ≡ some object
    → let (done, after) = setup fl new_compressor plugins name st in
      (done ≡ true) × (uses fl name after ≡ true) × (is_consistent after ≡ true)
unfolding setup uses is_good is_good_instance is_consistent set_plugin name_of is_some
setup-uses fl new_compressor plugins name object st p valid above found made =
    let (info, q, named) = find_info-find_plugin name plugins p found in
    elim (Bool-cases (is_some st.object && name_of fl st.info == name)) [
      | inl same ↦ rw same (refl, ground (arith, same, valid), valid)
      | inr other ↦
          let large : leb name none_name ≡ false = ground arith in
          rw (other, large, found, made, q) (refl, ground (arith, named), refl)
    ]
