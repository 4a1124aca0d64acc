-- ===== src/Data/Registry/RoundTrip.antt =====
-- The compressor that the registry recommends, looked up by its name and used: `choose`, `find` and `create` with
-- `compress` and `decompress` of pression/data/Compressor.cpp.
use mathlib.Core.Path.{subst}
use pression.Base.{
  ℕ, ◌+◌, ◌^◌, ◌≤◌, ◌<◌, Bool, true, false, ◌||◌, ◌≡◌, refl, sym, arith, Bool-cases, inl, inr, List,
  [], ◌∷◌, ◌++◌, length, drop, some,
}
use pression.Base.Best
use pression.Data.Word.{AllBelow}
use pression.Data.Compressor.{Codec, State, finished, count_parts, compress, decompress}
use pression.Data.Compressor.Parts.{IsLossless, AreStored}
use pression.Data.Compressor.RoundTrip.{decompress-compress_bytes}
use pression.Data.Registry.{
  Ratings, CompressorInfo, is_same_name, no_info, rate, first_rating, register_engine, choose, find,
}
use pression.Data.Registry.Choose.{
  IsStrictOrder, Candidate, is_eligible, offer, is_higher, choose-IsBest,
}
use pression.Data.Registry.Find.{is_same_name_refl, has_name}

-- A class that registers itself: its name, its constructor and its ratings.
pub record Class (Number : Type 0) : Type 0 where
  pub name : List ℕ
  pub codec : Codec
  pub info : CompressorInfo Number

-- What the registry holds when the classes have registered themselves, one after the other.
abbrev pub registered :
    {Number : Type 0}
    → List (Class Number)
    → List (CompressorInfo Number)
    → List (CompressorInfo Number)
registered [] infos = infos
registered (c ∷ cs) infos = registered cs (register_engine c.name c.codec c.info infos).1

module _ (P : Codec → Type 0) where
  -- The constructor of an info is that of a class with the property.
  abbrev pub Creates : {Number : Type 0} → CompressorInfo Number → Type 0
  Creates info = (codec : Codec) × (info.create ≡ some codec) × P codec

  abbrev pub AllCreate : {Number : Type 0} → List (CompressorInfo Number) → Type 0
  AllCreate [] = Unit {0}
  AllCreate (info ∷ infos) = Creates info × AllCreate infos

  abbrev pub AllClasses : {Number : Type 0} → List (Class Number) → Type 0
  AllClasses [] = Unit {0}
  AllClasses (c ∷ cs) = P c.codec × AllClasses cs

  create-append :
      {Number : Type 0} (infos : List (CompressorInfo Number)) (info : CompressorInfo Number)
      → AllCreate infos
      → Creates info
      → AllCreate (infos ++ (info ∷ []))
  create-append [] info all new = (new, tt)
  create-append (old ∷ infos) info (first, all) new = (first, create-append infos info all new)

  registered-AllCreate :
      {Number : Type 0} (classes : List (Class Number)) (infos : List (CompressorInfo Number))
      → AllClasses classes
      → AllCreate infos
      → AllCreate (registered classes infos)
  unfolding register_engine
  registered-AllCreate [] infos all old = old
  registered-AllCreate (c ∷ cs) infos (p, all) old =
      registered-AllCreate cs _ all (create-append infos _ old (c.codec, refl, p))

  find-Creates :
      (fl : Ratings) (name : List ℕ) (infos : List (CompressorInfo fl.Number))
      → AllCreate infos
      → has_name name infos ≡ true
      → Creates (find fl name infos)
  unfolding find
  find-Creates fl name [] all known = absurd (ground (arith, known))
  find-Creates fl name (info ∷ infos) (first, all) known =
      elim (Bool-cases (is_same_name info.name name)) [
        | inl e ↦ rw e first
        | inr e ↦ rw e (find-Creates fl name infos all (ground (arith, known, e)))
      ]

-- A registered compressor is rated above the default one.
abbrev pub is_above : (fl : Ratings) → List (CompressorInfo fl.Number) → Bool
is_above fl [] = false
is_above fl (info ∷ infos) = fl.greater (rate fl info) (first_rating fl) || is_above fl infos

none_above :
    (fl : Ratings) (infos : List (CompressorInfo fl.Number))
    → Best.NoneBetter (is_eligible fl) (offer fl) (is_higher fl) (no_info fl, first_rating fl) infos
    → is_above fl infos ≡ false
none_above fl [] none = refl
none_above fl (info ∷ infos) (first, rest) = ground (arith, first, none_above fl infos rest)

offered-has_name :
    (fl : Ratings) (infos : List (CompressorInfo fl.Number)) (result : Candidate fl)
    → Best.IsOffered (is_eligible fl) (offer fl) (is_higher fl) result infos
    → has_name result.0.name infos ≡ true
offered-has_name fl [] result member = absurd member
offered-has_name fl (info ∷ infos) result (inl (e, same)) =
    subst (λ (c : Candidate fl). has_name c.0.name (info ∷ infos) ≡ true) (sym same)
      (ground (arith, is_same_name_refl info.name))
offered-has_name fl (info ∷ infos) result (inr member) =
    ground (arith, offered-has_name fl infos result member)

choose-has_name :
    (fl : Ratings) (infos : List (CompressorInfo fl.Number))
    → IsStrictOrder fl
    → is_above fl infos ≡ true
    → has_name (choose fl infos).name infos ≡ true
choose-has_name fl infos order above =
    let (result, e, best) = choose-IsBest fl infos order in
    rw e (elim best [
      | inl (same, none) ↦ absurd (ground (arith, above, none_above fl infos none))
      | inr (member, _, _) ↦ offered-has_name fl infos result member
    ])

-- A codec is lossless, its results fit their memory, and it divides data of a size into chunks whose number fits an `int`.
abbrev pub Handles : (ℕ → List ℕ → ℕ) → ℕ → Codec → Type 0
Handles capacity size codec =
    IsLossless codec
    × AreStored capacity codec
    × (size + codec.get_chunk_size < 2 ^ 64)
    × (count_parts codec size < 2 ^ 31)

-- When classes that are lossless, with results that fit the memory that `reserve` leaves them, have registered themselves, and one of them is rated above the default: the compressor
-- that is recommended is found by its name, whatever the names are, and can be created; compressing bytes with it succeeds in a
-- build with and without OpenMP, and decompressing the results, by an object in any state, writes the bytes back and
-- changes nothing behind them. For each class the size with a chunk more fits 64 bits, and the number of chunks an
-- `int`; the comparison of ratings is a strict order.
pub recommended_round_trip :
    (fl : Ratings) (classes : List (Class fl.Number)) (capacity : ℕ → List ℕ → ℕ) (openmp : Bool)
    (bytes out : List ℕ) (st other : State)
    → IsStrictOrder fl
    → AllClasses (Handles capacity (length bytes)) classes
    → is_above fl (registered classes []) ≡ true
    → AllBelow 256 bytes
    → length bytes ≤ length out
    → let infos = registered classes [] in
      (codec : Codec) × ((find fl (choose fl infos).name infos).create ≡ some codec)
      × (new : State) × (compress codec capacity openmp bytes (length bytes) st ≡ some new)
      × (new' : State) × (decompress codec new.compressed out (length bytes) other
          ≡ finished new' (bytes ++ drop (length bytes) out))
recommended_round_trip fl classes capacity openmp bytes out st other order all above a fits =
    let infos = registered classes [] in
    let (codec, e, (lossless, room, small, few)) =
      find-Creates (Handles capacity (length bytes)) fl (choose fl infos).name infos
        (registered-AllCreate (Handles capacity (length bytes)) classes [] all tt)
        (choose-has_name fl infos order above) in
    let (new, p, new', q) =
      decompress-compress_bytes capacity codec openmp bytes out st other lossless room a small few
        fits in
    (codec, e, new, p, new', q)
