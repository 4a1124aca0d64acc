-- ===== src/Host/Compressor/Balance.antt =====
-- What becomes of the objects that a compressor allocates.
use pression.Base.{
  ℕ, true, ◌&&◌, ◌==◌, leb, ◌≡◌, refl, sym, ap, ◌∙◌, append-nil, arith, Bool-cases, inl, inr, List,
  [], ◌∷◌, ◌++◌, Option, none, some,
}
use pression.Host.Plugins.{Numbers, Plugin}
use pression.Host.Registry.{find_plugin}
use pression.Host.Instance.{
  none_name, object_list, note_new_compressor, note_deleted_compressor, is_some, Instance, fresh,
  name_of, is_good_instance, clear_instance,
}
use pression.Host.Compressor.{is_good, clear, set_plugin, setup, new_object, realloc}
use pression.Host.Ownership.{is_consistent}

module _ (fl : Numbers) where
  -- The calls that change a compressor; what the plugins allocate may differ from call to call, and so may
  -- the plugins that are loaded.
  pub data Call : Type 0 where
    setups : (Plugin fl → ℕ → Option ℕ) → List (Plugin fl) → ℕ → Call
    reallocs : (Plugin fl → ℕ → Option ℕ) → Call
    clears : Call

  unfoldable pub step : Call → Instance fl → Instance fl
  step (setups new_compressor plugins name) st = (setup fl new_compressor plugins name st).1
  step (reallocs new_compressor) st = (realloc fl new_compressor st).1
  step clears st = clear fl st

  unfoldable pub run : List Call → Instance fl → Instance fl
  run [] st = st
  run (call ∷ calls) st = run calls (step call st)

  -- What was allocated is what was deleted, and behind it the object that is held, which has a plugin.
  pub record IsBalanced (st : Instance fl) : Type 0 where
    pub balanced :
        st.ledger.new_compressors ≡ st.ledger.deleted_compressors ++ object_list st.object
    pub consistent : is_consistent st ≡ true

  fresh-IsBalanced : IsBalanced (fresh fl)
  unfolding fresh is_consistent is_some object_list
  fresh-IsBalanced = record { balanced = refl; consistent = refl }

  clear-IsBalanced : (st : Instance fl) → IsBalanced st → IsBalanced (clear fl st)
  unfolding clear clear_instance is_consistent is_some note_deleted_compressor
  clear-IsBalanced st h = record { balanced = h.balanced ∙ sym (append-nil _); consistent = refl }

  -- Behind `clear`, and behind a deletion, everything that was allocated is deleted.
  pub clear_settles :
      (st : Instance fl)
      → IsBalanced st
      → (clear fl st).ledger.deleted_compressors ≡ (clear fl st).ledger.new_compressors
  unfolding clear clear_instance note_deleted_compressor
  clear_settles st h = sym h.balanced

  -- Setting up a cleared compressor with a plugin that was found.
  set_plugin-IsBalanced :
      (new_compressor : Plugin fl → ℕ → Option ℕ) (name : ℕ) (found : Option (Plugin fl))
      (st : Instance fl)
      → IsBalanced st
      → st.ledger.deleted_compressors ≡ st.ledger.new_compressors
      → IsBalanced (set_plugin fl new_compressor name found st).1
  unfolding set_plugin is_consistent is_some note_new_compressor
  set_plugin-IsBalanced new_compressor name none st h e = h
  set_plugin-IsBalanced new_compressor name (some plugin) st h e = record {
    balanced = ap (λ l. l ++ object_list (new_compressor plugin name)) (sym e);
    consistent = ground arith;
  }

  setup-IsBalanced :
      (new_compressor : Plugin fl → ℕ → Option ℕ) (plugins : List (Plugin fl)) (name : ℕ)
      (st : Instance fl)
      → IsBalanced st
      → IsBalanced (setup fl new_compressor plugins name st).1
  unfolding setup
  setup-IsBalanced new_compressor plugins name st h =
      elim (Bool-cases (is_some st.object && name_of fl st.info == name)) [
        | inl e ↦ rw e h
        | inr e ↦ elim (Bool-cases (leb name none_name)) [
          | inl f ↦ rw (e, f) (clear-IsBalanced st h)
          | inr f ↦
              rw (e, f)
                (set_plugin-IsBalanced new_compressor name (find_plugin name plugins) (clear fl st)
                  (clear-IsBalanced st h) (clear_settles st h))
        ]
      ]

  realloc-IsBalanced :
      (new_compressor : Plugin fl → ℕ → Option ℕ) (st : Instance fl)
      → IsBalanced st
      → IsBalanced (realloc fl new_compressor st).1
  unfolding realloc is_good is_good_instance note_new_compressor note_deleted_compressor
  realloc-IsBalanced new_compressor st h = elim (Bool-cases (is_good fl st)) [
    | inr e ↦ rw e h
    | inl e ↦ rw e (record {
      balanced =
          ap (λ l. l ++ object_list (new_object fl new_compressor st.plugin (name_of fl st.info)))
            h.balanced;
      consistent = unfold is_consistent is_some in ground (arith, e);
    })
  ]

  step-IsBalanced : (call : Call) (st : Instance fl) → IsBalanced st → IsBalanced (step call st)
  unfolding step
  step-IsBalanced (setups new_compressor plugins name) st h =
      setup-IsBalanced new_compressor plugins name st h
  step-IsBalanced (reallocs new_compressor) st h = realloc-IsBalanced new_compressor st h
  step-IsBalanced clears st h = clear-IsBalanced st h

  run-IsBalanced :
      (calls : List Call) (st : Instance fl) → IsBalanced st → IsBalanced (run calls st)
  unfolding run
  run-IsBalanced [] st h = h
  run-IsBalanced (call ∷ calls) st h =
      run-IsBalanced calls (step call st) (step-IsBalanced call st h)

-- Whatever the calls of `setup`, `realloc` and `clear`, the compressor holds at most the last object that
-- it was given by a plugin, and has deleted every other one, each once and in the order in which they were
-- allocated; when it is destroyed it has deleted them all.
pub run_settles :
    (fl : Numbers) (calls : List (Call fl))
    → let st = run fl calls (fresh fl) in
      (st.ledger.new_compressors ≡ st.ledger.deleted_compressors ++ object_list st.object)
      × ((clear fl st).ledger.deleted_compressors ≡ (clear fl st).ledger.new_compressors)
run_settles fl calls =
    let h = run-IsBalanced fl calls (fresh fl) (fresh-IsBalanced fl) in
    (h.balanced, clear_settles fl (run fl calls (fresh fl)) h)
