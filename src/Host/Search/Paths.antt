-- ===== src/Host/Search/Paths.antt =====
-- The loop that splits the search path ends, and what it gives.
use pression.Base.{
  ℕ, zero, suc, ◌+◌, ◌≤◌, ◌<◌, ◌≡◌, refl, sym, ap, arith, true, false, ◌==◌, Bool-cases, inl, inr,
  if◌then◌else◌, List, [], ◌∷◌, length, take, drop, length-drop, Option, none, some,
}
use pression.Host.Decompressor.{is_empty}
use pression.Host.Search.{
  separator, next_index, find_character, position_or, next_position, rest_behind, keep_path,
  search_paths,
}

-- The parts of a text between separators.
abbrev pub add_first : ℕ → List (List ℕ) → List (List ℕ)
add_first c [] = (c ∷ []) ∷ []
add_first c (part ∷ parts) = (c ∷ part) ∷ parts

pub split_text : List ℕ → List (List ℕ)
split_text [] = [] ∷ []
split_text (c ∷ text) =
    let parts = split_text text in if c == separator then [] ∷ parts else add_first c parts

-- Those that are not empty.
pub nonempty : List (List ℕ) → List (List ℕ)
unfolding keep_path
nonempty [] = []
nonempty (part ∷ parts) = keep_path part (nonempty parts)

position_or-next_index :
    (n : ℕ) (o : Option ℕ) → position_or (suc n) (next_index o) ≡ suc (position_or n o)
unfolding position_or next_index
position_or-next_index n none = refl
position_or-next_index n (some i) = refl

next_position-cons :
    (c : ℕ) (text : List ℕ)
    → next_position (c ∷ text) ≡ (if c == separator then 0 else suc (next_position text))
unfolding next_position find_character
next_position-cons c text = elim (Bool-cases (c == separator)) [
  | inl e ↦ rw e (unfold position_or in refl)
  | inr e ↦ rw e (position_or-next_index (length text) (find_character separator text))
]

next_position-le : (text : List ℕ) → next_position text ≤ length text
next_position-le [] = unfold next_position find_character position_or in omega arith
next_position-le (c ∷ text) = ground (arith, next_position-cons c text, next_position-le text)

-- A text is its first part and, behind a separator, the rest.
split_at :
    (text : List ℕ)
    → split_text text ≡ (
        if next_position text == length text
        then take (next_position text) text ∷ []
        else take (next_position text) text ∷ split_text (drop (next_position text + 1) text))
unfolding split_text
split_at [] = unfold next_position find_character position_or in refl
split_at (c ∷ text) = elim (Bool-cases (c == separator)) [
  | inl e ↦
      let g : (0 == suc (length text)) ≡ false = ground arith in
      rw (next_position-cons c text, e, g) refl
  | inr e ↦ elim (Bool-cases (next_position text == length text)) [
    | inl f ↦
        let g : (suc (next_position text) == suc (length text)) ≡ true = ground (arith, f) in
        rw (next_position-cons c text, e, split_at text, f, g) refl
    | inr f ↦
        let g : (suc (next_position text) == suc (length text)) ≡ false = ground (arith, f) in
        let shift : suc (next_position text) + 1 ≡ suc (next_position text + 1) = omega arith in
        rw (next_position-cons c text, e, split_at text, f, g, shift) refl
  ]
]

-- A text in which the loop takes a round is longer than what is left of it.
rest_behind-lt :
    (text : List ℕ)
    → is_empty text ≡ false
    → length (rest_behind (next_position text) text) < length text
unfolding rest_behind is_empty
rest_behind-lt [] h = cc
rest_behind-lt (c ∷ text) h = ground (arith, length-drop (next_position (c ∷ text) + 1) (c ∷ text))

-- A round of the loop splits off the first part.
nonempty-split_text :
    (text : List ℕ)
    → is_empty text ≡ false
    → nonempty (split_text text)
      ≡ keep_path
          (take (next_position text) text)
          (nonempty (split_text (rest_behind (next_position text) text)))
unfolding nonempty
nonempty-split_text text h = elim (Bool-cases (next_position text == length text)) [
  | inl e ↦ rw (split_at text, e) (unfold rest_behind split_text keep_path in rw e refl)
  | inr e ↦ rw (split_at text, e) (unfold rest_behind in rw e refl)
]

-- With more fuel than the text is long, the loop that splits the search path ends, and the paths that it loads are
-- the parts of the text between the separators, in order, but for the empty ones.
pub search_paths-split_text :
    (fuel : ℕ) (text : List ℕ)
    → length text < fuel
    → search_paths fuel text ≡ some (nonempty (split_text text))
unfolding search_paths
search_paths-split_text zero text h = absurd (omega arith)
search_paths-split_text (suc fuel) text h = elim (Bool-cases (is_empty text)) [
  | inl e ↦ rw e (empty_paths text e)
  | inr e ↦
      let rest = rest_behind (next_position text) text in
      let ih : search_paths fuel rest ≡ some (nonempty (split_text rest)) =
        search_paths-split_text fuel rest (omega (arith, rest_behind-lt text e)) in
      rw (e, ih) (ap some (sym (nonempty-split_text text e)))
]
  where
    empty_paths : (t : List ℕ) → is_empty t ≡ true → some [] ≡ some (nonempty (split_text t))
    empty_paths [] p = unfold nonempty split_text keep_path in refl
    empty_paths (c ∷ t) p = unfold is_empty in cc
