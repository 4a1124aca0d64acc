-- ===== src/Plugin/Api/Find.antt =====
-- Every registered engine is found by its name.
use pression.Base.{ℕ, ◌≡◌, refl, arith, ◌⊎◌, inl, inr, List, [], ◌∷◌, ◌++◌, none, some}
use pression.Plugin.Engines.{Functions}
use pression.Plugin.Api.{
  State, search_functions, or_else, find_functions, register_engine, is_tested, is_compatible,
}

-- The functions are among those registered.
abbrev pub IsRegistered : Functions → List Functions → Type 0
IsRegistered f [] = ⊥
IsRegistered f (g ∷ gs) = (f ≡ g) ⊎ IsRegistered f gs

-- No name is registered twice.
abbrev pub AreDistinct : List Functions → Type 0
AreDistinct [] = Unit {0}
AreDistinct (f ∷ fs) = (search_functions f.name fs ≡ none) × AreDistinct fs

search-IsRegistered :
    (f : Functions) (fs : List Functions)
    → IsRegistered f fs
    → AreDistinct fs
    → search_functions f.name fs ≡ some f
unfolding search_functions
search-IsRegistered f [] member distinct = elim member [ ]
search-IsRegistered f (g ∷ gs) (inl e) distinct = rw e (ground arith)
search-IsRegistered f (g ∷ gs) (inr member) distinct =
    ground (arith, search-IsRegistered f gs member distinct.1, distinct.0)

search-appended :
    (name : ℕ) (fs : List Functions) (new f : Functions)
    → search_functions name fs ≡ some f
    → search_functions name (fs ++ (new ∷ [])) ≡ some f
unfolding search_functions
search-appended name [] new f h = absurd (ground (arith, h))
search-appended name (g ∷ gs) new f h = ground (arith, search-appended name gs new f, h)

search-last :
    (fs : List Functions) (new : Functions)
    → search_functions new.name fs ≡ none
    → search_functions new.name (fs ++ (new ∷ [])) ≡ some new
unfolding search_functions
search-last [] new h = ground arith
search-last (g ∷ gs) new h = ground (arith, search-last gs new, h)

-- In whatever order the engines were registered, if no two have the same name, each of them is found by
-- its name, also after another engine with a new name is registered; and after that, whether an engine is
-- compatible with a GL context is still what its own test says.
pub find_functions-register_engine :
    (st : State) (fs : List Functions) (f new : Functions) (gl : ℕ)
    → st.functions ≡ some fs
    → AreDistinct fs
    → IsRegistered f fs
    → search_functions new.name fs ≡ none
    → (find_functions f.name st ≡ some f)
      × (find_functions f.name (register_engine new st) ≡ some f)
      × (find_functions new.name (register_engine new st) ≡ some new)
      × (is_compatible f.name gl (register_engine new st) ≡ some (is_tested f.is_compatible gl))
unfolding find_functions register_engine or_else is_compatible
find_functions-register_engine st fs f new gl table distinct member fresh =
    let found = search-IsRegistered f fs member distinct in
    let still_found = search-appended f.name fs new f found in
    (
      rw (table, found) refl,
      rw (table, still_found) refl,
      rw (table, search-last fs new fresh) refl,
      rw (table, still_found) refl,
    )
