-- ===== src/Host/Downloader/Balance.antt =====
-- What becomes of the objects that a downloader allocates.
use pression.Base.{
  ℕ, Bool, ◌==◌, leb, ◌≡◌, refl, arith, Bool-cases, inl, inr, List, ◌++◌, Option, none, some,
}
use pression.Host.Plugins.{Numbers, Plugin}
use pression.Host.Registry.{find_plugin}
use pression.Host.Instance.{
  none_name, Ledger, object_list, note_new_decompressor, note_deleted_decompressor, is_some,
  Instance, fresh, name_of, clear_decompressor,
}
use pression.Host.Ownership.{
  is_consistent, IsReturned, clear_returns, clear-IsReturned, clear_empty, allocated-IsReturned,
  Call, run, run_returns,
}
use pression.Host.Downloader.{is_refused, set_plugin, setup}

-- The arguments of `setup`: what the plugins allocate, the GL context, those that are loaded, and the name.
pub record Args (fl : Numbers) : Type 0 where
  pub new_decompressor : Plugin fl → ℕ → Option ℕ
  pub gl : Option (Plugin fl → ℕ → Bool)
  pub plugins : List (Plugin fl)
  pub name : ℕ

module _ (fl : Numbers) where
  abbrev pub set_up : Args fl → Instance fl → Bool × Instance fl
  set_up args = setup fl args.new_decompressor args.gl args.plugins args.name

  abbrev pub allocated : Ledger → List ℕ
  allocated l = l.new_decompressors

  unchanged : (o : Option ℕ) (l : Ledger) → allocated (note_deleted_decompressor o l) ≡ allocated l
  unfolding note_deleted_decompressor
  unchanged o l = refl

  fresh-IsReturned : IsReturned allocated (fresh fl)
  unfolding fresh is_consistent is_some object_list
  fresh-IsReturned = record { balanced = refl; consistent = refl }

  set_plugin-IsReturned :
      (new_decompressor : Plugin fl → ℕ → Option ℕ) (gl : Option (Plugin fl → ℕ → Bool)) (name : ℕ)
      (found : Option (Plugin fl)) (st : Instance fl)
      → IsReturned allocated st
      → allocated st.ledger ≡ st.ledger.deleted_decompressors
      → st.object ≡ none
      → IsReturned allocated (set_plugin fl new_decompressor gl name found st).1
  unfolding set_plugin
  set_plugin-IsReturned new_decompressor gl name none st h e o = h
  set_plugin-IsReturned new_decompressor gl name (some plugin) st h e o =
      elim (Bool-cases (is_refused fl gl plugin name)) [
        | inl r ↦ rw r (record {
          balanced = h.balanced;
          consistent = unfold is_consistent is_some in ground (arith, o);
        })
        | inr r ↦ rw r (
            unfold note_new_decompressor is_some in
            allocated-IsReturned allocated unchanged st _ h e refl refl refl)
      ]

  setup-IsReturned :
      (args : Args fl) (st : Instance fl)
      → IsReturned allocated st
      → IsReturned allocated (set_up args st).1
  unfolding setup
  setup-IsReturned args st h = elim (Bool-cases (args.name == name_of fl st.info)) [
    | inl e ↦ rw e h
    | inr e ↦ elim (Bool-cases (leb args.name none_name)) [
      | inl f ↦ rw (e, f) (clear-IsReturned allocated unchanged st h)
      | inr f ↦
          rw (e, f)
            (set_plugin-IsReturned args.new_decompressor args.gl args.name
              (find_plugin args.name args.plugins) (clear_decompressor fl st)
              (clear-IsReturned allocated unchanged st h) (clear_returns allocated unchanged st h)
              (clear_empty st))
    ]
  ]

-- Whatever the calls of `setup` and `clear`, a downloader holds at most the last object that it was given by a
-- plugin, and has given back every other one, each once; when it is destroyed it has given them all back.
pub downloader_returns :
    (fl : Numbers) (calls : List (Call (Args fl)))
    → let st = run (set_up fl) calls (fresh fl) in
      (st.ledger.new_decompressors ≡ st.ledger.deleted_decompressors ++ object_list st.object)
      × ((clear_decompressor fl st).ledger.new_decompressors
          ≡ (clear_decompressor fl st).ledger.deleted_decompressors)
downloader_returns fl =
    run_returns (set_up fl) (allocated fl) (unchanged fl) (setup-IsReturned fl)
      (fresh-IsReturned fl)
