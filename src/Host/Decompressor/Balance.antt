-- ===== src/Host/Decompressor/Balance.antt =====
-- What becomes of the objects that a decompressor allocates.
use pression.Base.{
  ℕ, Bool, ◌&&◌, ◌==◌, leb, ◌≡◌, refl, Bool-cases, inl, inr, List, ◌++◌, Option, none, some,
}
use pression.Host.Plugins.{Numbers, Plugin}
use pression.Host.Registry.{find_plugin}
use pression.Host.Instance.{
  none_name, Ledger, object_list, note_new_decompressor, note_deleted_decompressor, is_some,
  Instance, fresh, name_of, clear_decompressor,
}
use pression.Host.Ownership.{
  is_consistent, IsReturned, clear_returns, clear-IsReturned, allocated-IsReturned, Call, run,
  run_returns,
}
use pression.Host.Decompressor.{set_plugin, setup}

-- The arguments of `setup`: what the plugins allocate, those that are loaded, and the name.
pub record Args (fl : Numbers) : Type 0 where
  pub new_decompressor : Plugin fl → ℕ → Option ℕ
  pub plugins : List (Plugin fl)
  pub name : ℕ

module _ (fl : Numbers) where
  abbrev pub set_up : Args fl → Instance fl → Bool × Instance fl
  set_up args = setup fl args.new_decompressor args.plugins args.name

  abbrev pub allocated : Ledger → List ℕ
  allocated l = l.new_decompressors

  unchanged : (o : Option ℕ) (l : Ledger) → allocated (note_deleted_decompressor o l) ≡ allocated l
  unfolding note_deleted_decompressor
  unchanged o l = refl

  fresh-IsReturned : IsReturned allocated (fresh fl)
  unfolding fresh is_consistent is_some object_list
  fresh-IsReturned = record { balanced = refl; consistent = refl }

  set_plugin-IsReturned :
      (new_decompressor : Plugin fl → ℕ → Option ℕ) (name : ℕ) (found : Option (Plugin fl))
      (st : Instance fl)
      → IsReturned allocated st
      → allocated st.ledger ≡ st.ledger.deleted_decompressors
      → IsReturned allocated (set_plugin fl new_decompressor name found st).1
  unfolding set_plugin
  set_plugin-IsReturned new_decompressor name none st h e = h
  set_plugin-IsReturned new_decompressor name (some plugin) st h e =
      unfold note_new_decompressor is_some in
      allocated-IsReturned allocated unchanged st
        (set_plugin fl new_decompressor name (some plugin) st).1 h e refl refl refl

  setup-IsReturned :
      (args : Args fl) (st : Instance fl)
      → IsReturned allocated st
      → IsReturned allocated (set_up args st).1
  unfolding setup
  setup-IsReturned args st h =
      elim (Bool-cases (is_some st.plugin && name_of fl st.info == args.name)) [
        | inl e ↦ rw e h
        | inr e ↦ elim (Bool-cases (leb args.name none_name)) [
          | inl f ↦ rw (e, f) (clear-IsReturned allocated unchanged st h)
          | inr f ↦
              rw (e, f)
                (set_plugin-IsReturned args.new_decompressor args.name
                  (find_plugin args.name args.plugins) (clear_decompressor fl st)
                  (clear-IsReturned allocated unchanged st h)
                  (clear_returns allocated unchanged st h))
        ]
      ]

-- Whatever the calls of `setup` and `clear`, a decompressor holds at most the last object that it was given by a
-- plugin, and has given back every other one, each once; when it is destroyed it has given them all back.
pub decompressor_returns :
    (fl : Numbers) (calls : List (Call (Args fl)))
    → let st = run (set_up fl) calls (fresh fl) in
      (st.ledger.new_decompressors ≡ st.ledger.deleted_decompressors ++ object_list st.object)
      × ((clear_decompressor fl st).ledger.new_decompressors
          ≡ (clear_decompressor fl st).ledger.deleted_decompressors)
decompressor_returns fl =
    run_returns (set_up fl) (allocated fl) (unchanged fl) (setup-IsReturned fl)
      (fresh-IsReturned fl)
