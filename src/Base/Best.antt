-- ===== src/Base/Best.antt =====
-- What a search for the best of several offers finds: the searches of pression/compressor.cpp,
-- pression/uploader.cpp, pression/downloader.cpp and pression/data/Registry.cpp keep a candidate and
-- replace it by an offer that is better.
use mathlib.Core.Path.{subst}
use pression.Base.{
  Bool, true, false, ◌&&◌, ◌≡◌, refl, sym, ap, if◌then◌else◌, arith, Bool-cases, ◌⊎◌, inl, inr,
  List, [], ◌∷◌, ◌++◌,
}

module _ {A C : Type 0} (is_eligible : A → Bool) (offer : A → C) (better : C → C → Bool) where
  -- An item replaces the candidate.
  abbrev pub replaces : A → C → Bool
  replaces a c = is_eligible a && better (offer a) c

  -- The search, one item after the other.
  unfoldable pub best : List A → C → C
  best [] c = c
  best (a ∷ items) c = best items (if replaces a c then offer a else c)

  -- No eligible item is better than the candidate.
  abbrev pub NoneBetter : C → List A → Type 0
  NoneBetter c [] = Unit {0}
  NoneBetter c (a ∷ items) = (replaces a c ≡ false) × NoneBetter c items

  -- The candidate is what one of the eligible items offers.
  abbrev pub IsOffered : C → List A → Type 0
  IsOffered c [] = ⊥
  IsOffered c (a ∷ items) = ((is_eligible a ≡ true) × (c ≡ offer a)) ⊎ IsOffered c items

  -- The best that is offered and better than the start, or the start if nothing is better than it.
  abbrev pub IsBest : List A → C → C → Type 0
  IsBest items start result =
      ((result ≡ start) × NoneBetter start items)
      ⊎ (IsOffered result items × (better result start ≡ true) × NoneBetter result items)

  pub best-append : (xs ys : List A) (c : C) → best (xs ++ ys) c ≡ best ys (best xs c)
  unfolding best
  best-append [] ys c = refl
  best-append (x ∷ xs) ys c = best-append xs ys (if replaces x c then offer x else c)

  pub best-kept :
      (a : A) (items : List A) (c : C) → replaces a c ≡ false → best (a ∷ items) c ≡ best items c
  unfolding best
  best-kept a items c e = ap (λ b. best items (if b then offer a else c)) e

  pub best-taken :
      (a : A) (items : List A) (c : C)
      → replaces a c ≡ true
      → best (a ∷ items) c ≡ best items (offer a)
  unfolding best
  best-taken a items c e = ap (λ b. best items (if b then offer a else c)) e

  -- Whatever the comparison is, the search ends with the start or with what an eligible item offers.
  pub best-IsOffered :
      (items : List A) (start : C) → (best items start ≡ start) ⊎ IsOffered (best items start) items
  best-IsOffered [] start = inl (unfold best in refl)
  best-IsOffered (a ∷ items) start = elim (Bool-cases (replaces a start)) [
    | inr e ↦
        subst (λ c. (c ≡ start) ⊎ IsOffered c (a ∷ items)) (sym (best-kept a items start e))
          (later start (best-IsOffered items start))
    | inl e ↦
        subst (λ c. (c ≡ start) ⊎ IsOffered c (a ∷ items)) (sym (best-taken a items start e))
          (inr (taken_now e (best-IsOffered items (offer a))))
  ]
    where
      later :
          (c : C)
          → (best items c ≡ c) ⊎ IsOffered (best items c) items
          → (best items c ≡ c) ⊎ IsOffered (best items c) (a ∷ items)
      later c (inl same) = inl same
      later c (inr member) = inr (inr member)

      taken_now :
          replaces a start ≡ true
          → (best items (offer a) ≡ offer a) ⊎ IsOffered (best items (offer a)) items
          → IsOffered (best items (offer a)) (a ∷ items)
      taken_now e (inl same) = inl (ground (arith, e), same)
      taken_now e (inr member) = inr member

  -- The comparison is a strict order.
  pub record IsStrictOrder : Type 0 where
    pub irreflexive : (a : C) → better a a ≡ false
    pub transitive : (a b c : C) → better a b ≡ true → better b c ≡ true → better a c ≡ true

  module _ (order : IsStrictOrder) where
    -- What did not replace a candidate does not replace a better one.
    still_kept : (a : A) (c d : C) → better d c ≡ true → replaces a c ≡ false → replaces a d ≡ false
    still_kept a c d above kept = elim (Bool-cases (is_eligible a)) [
      | inr e ↦ rw e refl
      | inl e ↦ elim (Bool-cases (better (offer a) d)) [
        | inr f ↦ rw (e, f) refl
        | inl f ↦ absurd (ground (arith, kept, e, order.transitive (offer a) d c f above))
      ]
    ]

    kept :
        (a : A) (items : List A) (start result : C)
        → replaces a start ≡ false
        → IsBest items start result
        → IsBest (a ∷ items) start result
    kept a items start result e (inl (same, none_better)) = inl (same, (e, none_better))
    kept a items start result e (inr (member, above, none_better)) =
        inr (inr member, above, (still_kept a start result above e, none_better))

    not_itself : (a : A) → replaces a (offer a) ≡ false
    not_itself a = ground (arith, order.irreflexive (offer a))

    taken :
        (a : A) (items : List A) (start result : C)
        → is_eligible a ≡ true
        → better (offer a) start ≡ true
        → IsBest items (offer a) result
        → IsBest (a ∷ items) start result
    taken a items start result e above (inl (same, none_better)) = inr (
      inl (e, same),
      rw same above,
      subst (λ c. NoneBetter c (a ∷ items)) (sym same) (not_itself a, none_better),
    )
    taken a items start result e above (inr (member, higher, none_better)) = inr (
      inr member,
      order.transitive result (offer a) start higher above,
      (still_kept a (offer a) result higher (not_itself a), none_better),
    )

    pub best-IsBest : (items : List A) (start : C) → IsBest items start (best items start)
    best-IsBest [] start = inl (unfold best in refl, tt)
    best-IsBest (a ∷ items) start = elim (Bool-cases (replaces a start)) [
      | inr e ↦
          subst (IsBest (a ∷ items) start) (sym (best-kept a items start e))
            (kept a items start (best items start) e (best-IsBest items start))
      | inl e ↦ subst (IsBest (a ∷ items) start) (sym (best-taken a items start e)) (
          taken a items start (best items (offer a)) (ground (arith, e)) (ground (arith, e))
            (best-IsBest items (offer a)))
    ]
