-- ===== src/Host/Ownership.antt =====
-- The objects that a compressor, a decompressor, an uploader or a downloader holds, and those that it has
-- given back.
use pression.Base.{
  ℕ, Bool, true, false, not, ◌&&◌, ◌||◌, ◌≡◌, refl, sym, ap, ◌∙◌, append-nil, arith, Bool-cases,
  inl, inr, List, [], ◌∷◌, ◌++◌, Option, none,
}
use pression.Host.Plugins.{Numbers}
use pression.Host.Instance.{
  Ledger, object_list, note_deleted_decompressor, is_some, Instance, fresh, clear_instance,
  clear_decompressor,
}

module _ {fl : Numbers} where
  -- An object is kept with the plugin that it is of.
  unfoldable pub is_consistent : Instance fl → Bool
  unfolding is_some
  is_consistent st = not (is_some st.object) || is_some st.plugin

  pub clear_empty : (st : Instance fl) → (clear_decompressor fl st).object ≡ none
  unfolding clear_decompressor clear_instance
  clear_empty st = ground arith

-- The objects that were allocated are those that `deleteDecompressor` was called for, and behind them the
-- one that is held, which has a plugin. Which function allocated them is given by `allocated`.
pub record IsReturned {fl : Numbers} (allocated : Ledger → List ℕ) (st : Instance fl) : Type 0 where
  pub balanced : allocated st.ledger ≡ st.ledger.deleted_decompressors ++ object_list st.object
  pub consistent : is_consistent st ≡ true

module _ {fl : Numbers} (allocated : Ledger → List ℕ)
    (unchanged : (o : Option ℕ) (l : Ledger)
      → allocated (note_deleted_decompressor o l) ≡ allocated l) where
  no_object :
      (st : Instance fl)
      → is_consistent st ≡ true
      → (is_some st.plugin && is_some st.object) ≡ false
      → object_list st.object ≡ []
  unfolding is_consistent is_some object_list
  no_object st h e = ground arith

  -- Behind `clear`, everything that was allocated is given back.
  pub clear_returns :
      (st : Instance fl)
      → IsReturned allocated st
      → allocated (clear_decompressor fl st).ledger
        ≡ (clear_decompressor fl st).ledger.deleted_decompressors
  unfolding clear_decompressor clear_instance
  clear_returns st h = elim (Bool-cases (is_some st.plugin && is_some st.object)) [
    | inl e ↦
        rw e (unchanged st.object st.ledger ∙ h.balanced ∙ unfold note_deleted_decompressor in refl)
    | inr e ↦ rw e (
        h.balanced
        ∙ ap (λ l. st.ledger.deleted_decompressors ++ l) (no_object st h.consistent e)
        ∙ append-nil st.ledger.deleted_decompressors)
  ]

  pub clear-IsReturned :
      (st : Instance fl) → IsReturned allocated st → IsReturned allocated (clear_decompressor fl st)
  unfolding is_consistent is_some object_list
  clear-IsReturned st h = record {
    balanced =
        clear_returns st h
        ∙ sym (append-nil _)
        ∙ ap (λ o. (clear_decompressor fl st).ledger.deleted_decompressors ++ object_list o)
            (sym (clear_empty st));
    consistent = rw (clear_empty st) refl;
  }

  -- A new object in a cleared instance, with its plugin.
  pub allocated-IsReturned :
      (st after : Instance fl)
      → IsReturned allocated st
      → allocated st.ledger ≡ st.ledger.deleted_decompressors
      → after.ledger.deleted_decompressors ≡ st.ledger.deleted_decompressors
      → allocated after.ledger ≡ allocated st.ledger ++ object_list after.object
      → is_some after.plugin ≡ true
      → IsReturned allocated after
  unfolding is_consistent
  allocated-IsReturned st after h e d n p = record {
    balanced = n ∙ ap (λ l. l ++ object_list after.object) (e ∙ sym d);
    consistent = ground (arith, p);
  }

-- The calls that change a decompressor, an uploader or a downloader: `setup` with its arguments, and `clear`.
pub data Call (Args : Type 0) : Type 0 where
  setups : Args → Call Args
  clears : Call Args

module _ {fl : Numbers} {Args : Type 0} (set_up : Args → Instance fl → Bool × Instance fl) where
  unfoldable pub step : Call Args → Instance fl → Instance fl
  step (setups args) st = (set_up args st).1
  step clears st = clear_decompressor fl st

  unfoldable pub run : List (Call Args) → Instance fl → Instance fl
  unfolding step
  run [] st = st
  run (call ∷ calls) st = run calls (step call st)

  module _ (allocated : Ledger → List ℕ)
      (unchanged : (o : Option ℕ) (l : Ledger)
        → allocated (note_deleted_decompressor o l) ≡ allocated l)
      (keeps : (args : Args) (st : Instance fl)
        → IsReturned allocated st
        → IsReturned allocated (set_up args st).1)
      (starts : IsReturned allocated (fresh fl)) where
    run-IsReturned :
        (calls : List (Call Args)) (st : Instance fl)
        → IsReturned allocated st
        → IsReturned allocated (run calls st)
    unfolding run
    run-IsReturned [] st h = h
    run-IsReturned (setups args ∷ calls) st h =
        run-IsReturned calls (set_up args st).1 (keeps args st h)
    run-IsReturned (clears ∷ calls) st h =
        run-IsReturned calls (clear_decompressor fl st) (clear-IsReturned allocated unchanged st h)

    -- After any calls, and when the object is destroyed.
    pub run_returns :
        (calls : List (Call Args))
        → let st = run calls (fresh fl) in
          (allocated st.ledger ≡ st.ledger.deleted_decompressors ++ object_list st.object)
          × (allocated (clear_decompressor fl st).ledger
              ≡ (clear_decompressor fl st).ledger.deleted_decompressors)
    run_returns calls =
        let h = run-IsReturned calls (fresh fl) starts in
        (h.balanced, clear_returns allocated unchanged (run calls (fresh fl)) h)
