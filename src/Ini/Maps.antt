-- ===== src/Ini/Maps.antt =====
-- `std::map` with strings for keys, as the source uses it: `find`, and `emplace`, which keeps what a
-- key has.
use ssh_agent_bridge.Base.{
  equal, Bool, true, false, List, [], ◌∷◌, Option, none, some, ◌==◌, ltb, if◌then◌else◌,
}
use ssh_agent_bridge.Util.{WideString}

abbrev pub Map {ℓ} : Type ℓ → Type ℓ
Map A = List (WideString × A)

unfoldable pub less : WideString → WideString → Bool
less [] [] = false
less [] (y ∷ ys) = true
less (x ∷ xs) [] = false
less (x ∷ xs) (y ∷ ys) = let rest = less xs ys in if x == y then rest else ltb x y

unfoldable pub find {ℓ} : {A : Type ℓ} → WideString → Map A → Option A
unfolding equal
find name [] = none
find name ((k, v) ∷ m) = let rest = find name m in if equal k name then some v else rest

unfoldable pub emplace {ℓ} : {A : Type ℓ} → WideString → A → Map A → Map A
unfolding equal less
emplace name value [] = (name, value) ∷ []
emplace name value ((k, v) ∷ m) =
    let rest = emplace name value m in
    if equal k name
    then (k, v) ∷ m
    else if less name k
    then (name, value) ∷ (k, v) ∷ m
    else (k, v) ∷ rest
