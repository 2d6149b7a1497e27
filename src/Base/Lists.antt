-- ===== src/Base/Lists.antt =====
-- Lists measured and cut by native numbers, under the library's names.
use Prim.Native.Nat.{ℕ, zero, suc, ◌+◌, ◌-◌, ◌≤◌, min}
use mathlib.Core.Path.{◌≡◌, refl, ap, ◌∙◌}
use mathlib.Core.Logic.{◌⊎◌, inl, inr}
use mathlib.Core.List.{List, [], ◌∷◌, ◌++◌, map, reverse, reverse-cons}
use mathlib.Core.Option.{Option, none, some}
use native.Mathlib.Omega.{arith}

module _ {ℓ} {A : Type ℓ} where
  abbrev pub length : List A → ℕ
  length [] = 0
  length (x ∷ xs) = suc (length xs)

  abbrev pub take : ℕ → List A → List A
  take zero xs = []
  take (suc n) [] = []
  take (suc n) (x ∷ xs) = x ∷ take n xs

  abbrev pub drop : ℕ → List A → List A
  drop zero xs = xs
  drop (suc n) [] = []
  drop (suc n) (x ∷ xs) = drop n xs

  abbrev pub head? : List A → Option A
  head? [] = none
  head? (x ∷ xs) = some x

  abbrev pub All {κ} : (A → Type κ) → List A → Type κ
  All P [] = Unit {κ}
  All P (x ∷ xs) = P x × All P xs

  pub length-append : (xs ys : List A) → length (xs ++ ys) ≡ length xs + length ys
  length-append [] ys = omega arith
  length-append (x ∷ xs) ys = omega (arith, length-append xs ys)

  pub length-reverse : (xs : List A) → length (reverse xs) ≡ length xs
  length-reverse [] = refl
  length-reverse (x ∷ xs) =
      omega (
        arith,
        ap length (reverse-cons x xs),
        length-append (reverse xs) (x ∷ []),
        length-reverse xs,
      )

  pub take-append-drop : (n : ℕ) (xs : List A) → take n xs ++ drop n xs ≡ xs
  take-append-drop zero xs = refl
  take-append-drop (suc n) [] = refl
  take-append-drop (suc n) (x ∷ xs) = ap (◌∷◌ x) (take-append-drop n xs)

  pub length-take : (n : ℕ) (xs : List A) → length (take n xs) ≡ min n (length xs)
  length-take zero xs = omega arith
  length-take (suc n) [] = omega arith
  length-take (suc n) (x ∷ xs) = omega (arith, length-take n xs)

  pub length-drop : (n : ℕ) (xs : List A) → length (drop n xs) ≡ length xs - n
  length-drop zero xs = omega arith
  length-drop (suc n) [] = omega arith
  length-drop (suc n) (x ∷ xs) = omega (arith, length-drop n xs)

  pub take-append : (xs ys : List A) → take (length xs) (xs ++ ys) ≡ xs
  take-append [] ys = refl
  take-append (x ∷ xs) ys = ap (◌∷◌ x) (take-append xs ys)

  pub drop-append : (xs ys : List A) → drop (length xs) (xs ++ ys) ≡ ys
  drop-append [] ys = refl
  drop-append (x ∷ xs) ys = drop-append xs ys

  pub take-length : (n : ℕ) (xs : List A) → length xs ≤ n → take n xs ≡ xs
  take-length zero [] h = refl
  take-length zero (x ∷ xs) h = absurd (omega arith)
  take-length (suc n) [] h = refl
  take-length (suc n) (x ∷ xs) h = ap (◌∷◌ x) (take-length n xs (omega arith))

  pub drop-length : (n : ℕ) (xs : List A) → length xs ≤ n → drop n xs ≡ []
  drop-length zero [] h = refl
  drop-length zero (x ∷ xs) h = absurd (omega arith)
  drop-length (suc n) [] h = refl
  drop-length (suc n) (x ∷ xs) h = drop-length n xs (omega arith)

  -- Two cuts in a row.
  pub drop-drop : (m n : ℕ) (xs : List A) → drop n (drop m xs) ≡ drop (m + n) xs
  drop-drop zero n xs = ap (λ k. drop k xs) (omega arith)
  drop-drop (suc m) zero [] = ap (λ k. drop k []) (let e : suc m ≡ suc m + 0 = omega arith in e)
  drop-drop (suc m) (suc n) [] =
      ap (λ k. drop k []) (let e : suc (m + suc n) ≡ suc m + suc n = omega arith in e)
  drop-drop (suc m) n (x ∷ xs) =
      let e : suc (m + n) ≡ suc m + n = omega arith in
      drop-drop m n xs ∙ ap (λ k. drop k (x ∷ xs)) e

  pub All-append {κ} : (P : A → Type κ) (xs ys : List A) → All P xs → All P ys → All P (xs ++ ys)
  All-append P [] ys hx hy = hy
  All-append P (x ∷ xs) ys hx hy = (hx.0, All-append P xs ys hx.1 hy)

pub Option-cases {ℓ} : {A : Type ℓ} (o : Option A) → (o ≡ none) ⊎ ((a : A) × (o ≡ some a))
Option-cases none = inl refl
Option-cases (some a) = inr (a, refl)

pub map-append {ℓ κ} :
    {A : Type ℓ} {B : Type κ} (f : A → B) (xs ys : List A) → map f (xs ++ ys) ≡ map f xs ++ map f ys
map-append f [] ys = refl
map-append f (x ∷ xs) ys = ap (◌∷◌ (f x)) (map-append f xs ys)
