-- ===== src/Tests/Host.antt =====
-- The host library at concrete inputs.
use pression.Base.{ℕ, ◌≡◌, refl, arith, ltb, ◌==◌, ◌*◌, ◌/◌, true, false, [], ◌∷◌, some}
use pression.Host.Plugins.{Numbers, Info, Plugin, accept_infos, accept_plugin, on_result}
use pression.Host.Registry.{find_plugin, accept, accept_from, finder}
use pression.Host.Registry.Find.{first_with, find_plugin-first_with}
use pression.Host.Instance.{is_some, fresh}
use pression.Host.Ownership.{is_consistent}
use pression.Host.Compressor.{Wish, Candidate, no_candidate, choose, setup, uses}
use pression.Host.Compressor.Choose.{IsBest, all_infos, choose_plugin-IsBest}
use pression.Host.Compressor.Setup.{setup-uses}

-- Hundredths.
abbrev pub hundredths : Numbers
hundredths = record {
  Number = ℕ;
  greater = λ a b. ltb b a;
  equal = λ a b. a == b;
  quotient = λ a b. a * 100 / b;
  power = λ a. a;
  largest = 1_000_000;
  zero = 0;
  one = 100;
  three_quarters = 75;
  fifteen_sixteenths = 93;
}

abbrev pub info_of : ℕ → ℕ → ℕ → Info hundredths
info_of name type rating = record {
  name = name;
  token_type = type;
  output_token_type = 0x1908;
  output_token_size = 4;
  capabilities = 0xe;
  quality = 100;
  ratio = 50;
  speed = rating;
  rating_alpha = rating;
  rating_no_alpha = rating;
}

abbrev pub rle : Plugin hundredths
rle = record { file = 1 ∷ []; infos = info_of 0x21 0x1908 169 ∷ info_of 0x10 0x1908 206 ∷ [] }

abbrev pub jpeg : Plugin hundredths
jpeg = record { file = 2 ∷ []; infos = info_of 0x80 0x401 300 ∷ [] }

abbrev pub wish : Wish hundredths
wish = record { token_type = 0x1908; min_quality = 90; ignore_alpha = false }

find_plugin-first_with_example :
    find_plugin 0x80 (rle ∷ jpeg ∷ []) ≡ first_with 0x80 (rle ∷ jpeg ∷ [])
find_plugin-first_with_example = find_plugin-first_with 0x80 (rle ∷ jpeg ∷ [])

choose_plugin-IsBest_example :
    (result : Candidate hundredths) × (choose hundredths wish (rle ∷ jpeg ∷ []) ≡ result.name)
    × IsBest hundredths wish
        (all_infos hundredths (rle ∷ jpeg ∷ []))
        (no_candidate hundredths)
        result
choose_plugin-IsBest_example =
    choose_plugin-IsBest hundredths wish (rle ∷ jpeg ∷ [])
      (record { irreflexive = λ a. ground arith; transitive = λ a b c p q. ground arith })

-- Of the two engines for the token type, the better one is chosen.
chosen : choose hundredths wish (rle ∷ jpeg ∷ []) ≡ 0x10
unfolding choose
chosen = refl

pub fresh_consistent : is_consistent (fresh hundredths) ≡ true
unfolding is_consistent is_some fresh
fresh_consistent = refl

pub rle_found : find_plugin 0x10 (rle ∷ jpeg ∷ []) ≡ some rle
unfolding find_plugin accept accept_from finder accept_plugin accept_infos on_result
rle_found = refl

setup-uses_example :
    let (done, after) =
      setup hundredths (λ p name. some 7) (rle ∷ jpeg ∷ []) 0x10 (fresh hundredths) in
    (done ≡ true) × (uses hundredths 0x10 after ≡ true) × (is_consistent after ≡ true)
setup-uses_example =
    setup-uses hundredths (λ p name. some 7) (rle ∷ jpeg ∷ []) 0x10 7 (fresh hundredths) rle
      fresh_consistent (omega arith) rle_found refl
