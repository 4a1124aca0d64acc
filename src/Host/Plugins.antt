-- ===== src/Host/Plugins.antt =====
-- A plugin of the host library, pression/plugin.cpp and pression/compressorInfo.h, and the visitors that
-- traverse it. The numbers are those of single precision, a parameter.
use pression.Base.{ℕ, Bool, true, false, ◌==◌, if◌then◌else◌, List, [], ◌∷◌, Option, none, some}

-- The single-precision arithmetic that is used: `>`, `==`, `/`, `powf( x, .3f )`, the largest number, and
-- the constants 0, 1, .75 and .9375.
pub record Numbers : Type 1 where
  pub Number : Type 0
  pub greater : Number → Number → Bool
  pub equal : Number → Number → Bool
  pub quotient : Number → Number → Number
  pub power : Number → Number
  pub largest : Number
  pub zero : Number
  pub one : Number
  pub three_quarters : Number
  pub fifteen_sixteenths : Number

module _ (fl : Numbers) where
  -- `CompressorInfo`, which extends `EqCompressorInfo`.
  pub record Info : Type 0 where
    pub name : ℕ
    pub token_type : ℕ
    pub output_token_type : ℕ
    pub output_token_size : ℕ
    pub capabilities : ℕ
    pub quality : fl.Number
    pub ratio : fl.Number
    pub speed : fl.Number
    pub rating_alpha : fl.Number
    pub rating_no_alpha : fl.Number

  -- `Plugin`: its infos. The library it stands for is known by its file name.
  pub record Plugin : Type 0 where
    pub file : List ℕ
    pub infos : List Info

  -- `Plugin::isGood`.
  unfoldable pub is_good : Plugin → Bool
  is_good plugin = some_info plugin.infos
    where
      some_info : List Info → Bool
      some_info [] = false
      some_info (info ∷ infos) = true

  -- `Plugin::implementsType`.
  unfoldable pub implements_type : ℕ → List Info → Bool
  implements_type name [] = false
  implements_type name (info ∷ infos) =
      let rest = implements_type name infos in if info.name == name then true else rest

  -- `Plugin::findInfo`; `none` is the code that is marked as unreachable.
  unfoldable pub find_info : ℕ → List Info → Option Info
  find_info name [] = none
  find_info name (info ∷ infos) =
      let rest = find_info name infos in if info.name == name then some info else rest

-- `VisitorResult` of lunchbox, by the three constants that are used.
pub data VisitorResult : Type 0 where
  terminate continue_traversal prune : VisitorResult

module _ (fl : Numbers) (S : Type 0) where
  -- The virtual methods `visit` of a visitor with the state `S`.
  pub record Visitor : Type 0 where
    pub visit : Plugin fl → S → VisitorResult × S
    pub visit_info : Plugin fl → Info fl → S → VisitorResult × S

-- The switch on what `visit` gives: what follows if the traversal goes on, and if it is pruned.
unfoldable pub on_result :
    {S : Type 0}
    → VisitorResult × S
    → (S → VisitorResult × S)
    → (S → VisitorResult × S)
    → VisitorResult × S
on_result (terminate, s) go_on pruned = (terminate, s)
on_result (continue_traversal, s) go_on pruned = go_on s
on_result (prune, s) go_on pruned = pruned s

module _ {fl : Numbers} {S : Type 0} where
  -- The loop of `Plugin::accept` over the infos, with its variable `result`.
  unfoldable pub accept_infos :
      Visitor fl S → Plugin fl → List (Info fl) → VisitorResult → S → VisitorResult × S
  unfolding on_result
  accept_infos v plugin [] result s = (result, s)
  accept_infos v plugin (info ∷ infos) result s =
      on_result (v.visit_info plugin info s) (λ t. accept_infos v plugin infos result t)
        (λ t. accept_infos v plugin infos prune t)

  -- `Plugin::accept`.
  unfoldable pub accept_plugin : Visitor fl S → Plugin fl → S → VisitorResult × S
  unfolding on_result accept_infos
  accept_plugin v plugin s =
      on_result (v.visit plugin s) (λ t. accept_infos v plugin plugin.infos continue_traversal t)
        (λ t. (prune, t))
