-- ===== src/Data/Registry.antt =====
-- `pression::data::Registry` and `CompressorInfo`: pression/data/Registry.h, Registry.cpp and
-- CompressorInfo.h. The single instance of the registry is a list that is passed on.
pub mod Choose
pub mod Find
pub mod RoundTrip
use pression.Base.{
  ℕ, Bool, true, false, ◌&&◌, ◌==◌, if◌then◌else◌, List, [], ◌∷◌, ◌++◌, Option, none, some,
}
use pression.Data.Compressor.{Codec}

-- The single-precision arithmetic of `choose`; `tenths` is a number of tenths, such as `.3f`.
pub record Ratings : Type 1 where
  pub Number : Type 0
  pub tenths : ℕ → Number
  pub powf : Number → Number → Number
  pub divided : Number → Number → Number
  pub greater : Number → Number → Bool

-- `std::string::operator==`, of strings as lists of their characters.
unfoldable pub is_same_name : List ℕ → List ℕ → Bool
is_same_name [] [] = true
is_same_name [] (d ∷ ds) = false
is_same_name (c ∷ cs) [] = false
is_same_name (c ∷ cs) (d ∷ ds) = c == d && is_same_name cs ds

-- `CompressorInfo`; `create` is what calling that function gives, `none` is the null pointer.
pub record CompressorInfo (Number : Type 0) : Type 0 where
  pub name : List ℕ
  pub ratio : Number
  pub speed : Number
  pub create : Option Codec

module _ {Number : Type 0} where
  -- `registerEngine` with the name and the constructor of a class, and `_registerEngine`.
  unfoldable pub register_engine :
      List ℕ
      → Codec
      → CompressorInfo Number
      → List (CompressorInfo Number)
      → Bool × List (CompressorInfo Number)
  register_engine name codec info infos =
      (true, infos ++ (record info { name = name; create = some codec } ∷ []))

module _ (fl : Ratings) where
  open fl use {Number, tenths, powf, divided, greater}

  -- `CompressorInfo()`.
  abbrev pub no_info : CompressorInfo Number
  no_info = record { name = []; ratio = tenths 10; speed = tenths 10; create = none }

  -- `newRating`.
  unfoldable pub rate : CompressorInfo Number → Number
  rate info = divided (powf info.speed (tenths 3)) info.ratio

  abbrev pub first_rating : Number
  first_rating = powf (tenths 10) (tenths 3)

  -- The loop of `choose`, with its variables `candidate` and `rating`.
  unfoldable pub choose_from :
      List (CompressorInfo Number) → CompressorInfo Number → Number → CompressorInfo Number
  unfolding rate
  choose_from [] candidate rating = candidate
  choose_from (info ∷ infos) candidate rating =
      let taken = choose_from infos info (rate info) in
      let kept = choose_from infos candidate rating in
      if greater (rate info) rating then taken else kept

  unfoldable pub choose : List (CompressorInfo Number) → CompressorInfo Number
  unfolding choose_from
  choose infos = choose_from infos no_info first_rating

  unfoldable pub find : List ℕ → List (CompressorInfo Number) → CompressorInfo Number
  unfolding is_same_name
  find name [] = no_info
  find name (info ∷ infos) =
      let rest = find name infos in if is_same_name info.name name then info else rest
