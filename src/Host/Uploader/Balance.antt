-- ===== src/Host/Uploader/Balance.antt =====
-- What becomes of the objects that a uploader allocates.
use pression.Base.{
  ℕ, Bool, ◌&&◌, ◌==◌, leb, ◌≡◌, refl, ◌∙◌, arith, Bool-cases, inl, inr, List, [], ◌∷◌, ◌++◌,
  Option, none, some,
}
use pression.Host.Plugins.{Numbers, Plugin}
use pression.Host.Registry.{find_plugin}
use pression.Host.Instance.{
  none_name, Ledger, object_list, note_new_compressor, note_deleted_decompressor, is_some, Instance,
  fresh, name_of, clear_instance, clear_decompressor,
}
use pression.Host.Ownership.{
  is_consistent, IsReturned, clear_returns, clear-IsReturned, allocated-IsReturned, Call, setups,
  clears, run, run_returns,
}
use pression.Host.Uploader.{set_plugin, setup}

-- The arguments of `setup`: what the plugins allocate, those that are loaded, and the name.
pub record Args (fl : Numbers) : Type 0 where
  pub new_compressor : Plugin fl → ℕ → Option ℕ
  pub plugins : List (Plugin fl)
  pub name : ℕ

module _ (fl : Numbers) where
  abbrev pub set_up : Args fl → Instance fl → Bool × Instance fl
  set_up args = setup fl args.new_compressor args.plugins args.name

  abbrev pub allocated : Ledger → List ℕ
  allocated l = l.new_compressors

  unchanged : (o : Option ℕ) (l : Ledger) → allocated (note_deleted_decompressor o l) ≡ allocated l
  unfolding note_deleted_decompressor
  unchanged o l = refl

  fresh-IsReturned : IsReturned allocated (fresh fl)
  unfolding fresh is_consistent is_some object_list
  fresh-IsReturned = record { balanced = refl; consistent = refl }

  set_plugin-IsReturned :
      (new_compressor : Plugin fl → ℕ → Option ℕ) (name : ℕ) (found : Option (Plugin fl))
      (st : Instance fl)
      → IsReturned allocated st
      → allocated st.ledger ≡ st.ledger.deleted_decompressors
      → IsReturned allocated (set_plugin fl new_compressor name found st).1
  unfolding set_plugin
  set_plugin-IsReturned new_compressor name none st h e = h
  set_plugin-IsReturned new_compressor name (some plugin) st h e =
      unfold note_new_compressor is_some in
      allocated-IsReturned allocated unchanged st
        (set_plugin fl new_compressor name (some plugin) st).1 h e refl refl refl

  setup-IsReturned :
      (args : Args fl) (st : Instance fl)
      → IsReturned allocated st
      → IsReturned allocated (set_up args st).1
  unfolding setup
  setup-IsReturned args st h =
      elim (Bool-cases (is_some st.object && args.name == name_of fl st.info)) [
        | inl e ↦ rw e h
        | inr e ↦ elim (Bool-cases (leb args.name none_name)) [
          | inl f ↦ rw (e, f) (clear-IsReturned allocated unchanged st h)
          | inr f ↦
              rw (e, f)
                (set_plugin-IsReturned args.new_compressor args.name
                  (find_plugin args.name args.plugins) (clear_decompressor fl st)
                  (clear-IsReturned allocated unchanged st h)
                  (clear_returns allocated unchanged st h))
        ]
      ]

  clear_undeleted :
      (st : Instance fl)
      → (clear_decompressor fl st).ledger.deleted_compressors ≡ st.ledger.deleted_compressors
  unfolding clear_decompressor clear_instance note_deleted_decompressor
  clear_undeleted st = ground arith

  set_plugin_undeleted :
      (new_compressor : Plugin fl → ℕ → Option ℕ) (name : ℕ) (found : Option (Plugin fl))
      (st : Instance fl)
      → (set_plugin fl new_compressor name found st).1.ledger.deleted_compressors
        ≡ st.ledger.deleted_compressors
  unfolding set_plugin note_new_compressor
  set_plugin_undeleted new_compressor name none st = refl
  set_plugin_undeleted new_compressor name (some plugin) st = refl

  setup_undeleted :
      (args : Args fl) (st : Instance fl)
      → (set_up args st).1.ledger.deleted_compressors ≡ st.ledger.deleted_compressors
  unfolding setup
  setup_undeleted args st = ground (
    arith,
    clear_undeleted st,
    set_plugin_undeleted args.new_compressor args.name (find_plugin args.name args.plugins)
        (clear_decompressor fl st),
  )

  run_undeleted :
      (calls : List (Call (Args fl))) (st : Instance fl)
      → (run set_up calls st).ledger.deleted_compressors ≡ st.ledger.deleted_compressors
  unfolding run
  run_undeleted [] st = refl
  run_undeleted (setups args ∷ calls) st =
      run_undeleted calls (set_up args st).1 ∙ setup_undeleted args st
  run_undeleted (clears ∷ calls) st =
      run_undeleted calls (clear_decompressor fl st) ∙ clear_undeleted st

-- Whatever the calls of `setup` and `clear`, each object that an uploader was given by a plugin's `newCompressor`
-- and does not hold any more was handed to `deleteDecompressor`, and so is the last one when the uploader is
-- destroyed; `deleteCompressor` is never called.
pub uploader_returns :
    (fl : Numbers) (calls : List (Call (Args fl)))
    → let st = run (set_up fl) calls (fresh fl) in
      (st.ledger.new_compressors ≡ st.ledger.deleted_decompressors ++ object_list st.object)
      × ((clear_decompressor fl st).ledger.new_compressors
          ≡ (clear_decompressor fl st).ledger.deleted_decompressors)
      × ((clear_decompressor fl st).ledger.deleted_compressors ≡ [])
uploader_returns fl calls =
    let (held, settled) =
      run_returns (set_up fl) (allocated fl) (unchanged fl) (setup-IsReturned fl)
        (fresh-IsReturned fl) calls in
    (
      held,
      settled,
      clear_undeleted fl (run (set_up fl) calls (fresh fl))
          ∙ run_undeleted fl calls (fresh fl)
          ∙ unfold fresh in refl,
    )
