-- ===== src/Data/Registry/Find.antt =====
-- How registering a compressor and looking one up by its name fit together.
use pression.Base.{ℕ, Bool, true, false, ◌||◌, ◌≡◌, refl, arith, List, [], ◌∷◌, ◌++◌, some}
use pression.Data.Compressor.{Codec}
use pression.Data.Registry.{Ratings, CompressorInfo, is_same_name, register_engine, find}

pub is_same_name_refl : (name : List ℕ) → is_same_name name name ≡ true
unfolding is_same_name
is_same_name_refl [] = refl
is_same_name_refl (c ∷ cs) = ground (arith, is_same_name_refl cs)

-- A compressor of the name is registered.
abbrev pub has_name : {Number : Type 0} → List ℕ → List (CompressorInfo Number) → Bool
has_name name [] = false
has_name name (info ∷ infos) = is_same_name info.name name || has_name name infos

find-appended :
    (fl : Ratings) (infos : List (CompressorInfo fl.Number)) (added : CompressorInfo fl.Number)
    (name : List ℕ)
    → added.name ≡ name
    → has_name name infos ≡ false
    → find fl name (infos ++ (added ∷ [])) ≡ added
unfolding find
find-appended fl [] added name e new = rw (e, is_same_name_refl name) refl
find-appended fl (info ∷ infos) added name e new =
    ground (arith, find-appended fl infos added name e)

find-kept :
    (fl : Ratings) (infos : List (CompressorInfo fl.Number)) (added : CompressorInfo fl.Number)
    (name : List ℕ)
    → has_name name infos ≡ true
    → find fl name (infos ++ (added ∷ [])) ≡ find fl name infos
unfolding find
find-kept fl [] added name old = absurd (ground (arith, old))
find-kept fl (info ∷ infos) added name old = ground (arith, find-kept fl infos added name)

-- Registering a class succeeds; behind it the class is found by its name if that name was new, and
-- every name that was registered before is still found as it was.
pub find-register_engine :
    (fl : Ratings) (infos : List (CompressorInfo fl.Number)) (info : CompressorInfo fl.Number)
    (name old_name : List ℕ) (codec : Codec)
    → has_name name infos ≡ false
    → has_name old_name infos ≡ true
    → let (done, registered) = register_engine name codec info infos in
      (done ≡ true)
      × (find fl name registered ≡ record info { name = name; create = some codec })
      × (find fl old_name registered ≡ find fl old_name infos)
unfolding register_engine
find-register_engine fl infos info name old_name codec new old =
    (refl, find-appended fl infos _ name refl new, find-kept fl infos _ old_name old)
