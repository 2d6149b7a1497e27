-- ===== src/Base/Tests.antt =====
-- Boolean tests on numbers and the conditional.
use Prim.Native.Nat.{ℕ, ◌≤◌, ◌<◌, compare, Ordering}
use mathlib.Core.Path.{◌≡◌, refl}
use mathlib.Core.Logic.{◌↔◌, ◌⊎◌, inl, inr}
use mathlib.Core.Bool.{Bool, true, false, ◌&&◌}
use mathlib.Core.List.{List, [], ◌∷◌}
use native.Mathlib.Omega.{arith}

abbrev pub ltb : ℕ → ℕ → Bool
ltb a b = elim (compare a b) [ Ordering.lt ↦ true | _ ↦ false ]

abbrev pub leb : ℕ → ℕ → Bool
leb a b = elim (compare a b) [ Ordering.gt ↦ false | _ ↦ true ]

infix 50 ◌==◌
abbrev pub ◌==◌ : ℕ → ℕ → Bool
a == b = elim (compare a b) [ Ordering.eq ↦ true | _ ↦ false ]

infix 1 if◌then◌else◌
abbrev pub if◌then◌else◌ {ℓ} : {A : Type ℓ} → Bool → A → A → A
if true then x else y = x
if false then x else y = y

pub lt→ltb : (a b : ℕ) → a < b → ltb a b ≡ true
lt→ltb a b h = ground arith

pub le→leb : (a b : ℕ) → a ≤ b → leb a b ≡ true
le→leb a b h = ground arith

pub lt→not-leb : (a b : ℕ) → b < a → leb a b ≡ false
lt→not-leb a b h = ground arith

pub le→not-ltb : (a b : ℕ) → b ≤ a → ltb a b ≡ false
le→not-ltb a b h = ground arith

pub ==-self : (a : ℕ) → (a == a) ≡ true
==-self a = ground arith

pub ==→eq : (a b : ℕ) → (a == b) ≡ true → a ≡ b
==→eq a b h = ground arith

pub Bool-cases : (b : Bool) → (b ≡ true) ⊎ (b ≡ false)
Bool-cases true = inl refl
Bool-cases false = inr refl

-- What holds of both branches holds of the conditional.
pub if_lem {ℓ κ} :
    {A : Type ℓ} (P : A → Type κ) (b : Bool) (s t : A)
    → (b ≡ true → P s)
    → (b ≡ false → P t)
    → P (if b then s else t)
if_lem P true s t f g = f refl
if_lem P false s t f g = g refl

-- `memcmp` and `==` on strings: two lists of numbers are compared element by element.
unfoldable pub equal : List ℕ → List ℕ → Bool
equal [] [] = true
equal (x ∷ xs) (y ∷ ys) = x == y && equal xs ys
equal _ _ = false

pub equal_iff : (a b : List ℕ) → (equal a b ≡ true) ↔ (a ≡ b)
unfolding equal
equal_iff (x ∷ a) (y ∷ b) = ground (arith, equal_iff a b)
equal_iff _ _ = ground arith

pub equal_self : (a : List ℕ) → equal a a ≡ true
equal_self a = (equal_iff a a).1 refl

pub equal→eq : (a b : List ℕ) → equal a b ≡ true → a ≡ b
equal→eq a b h = (equal_iff a b).0 h
