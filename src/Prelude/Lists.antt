-- ===== src/Prelude/Lists.antt =====
-- Lists measured by native numbers, tests over a list, and predicates on its items.
use Prim.Native.Nat.{ℕ, zero, suc, ◌+◌}
use mathlib.Core.Path.{◌≡◌, refl}
use mathlib.Core.Logic.{◌⊎◌, inl, inr}
use mathlib.Core.Bool.{Bool, true, false, ◌||◌, ◌&&◌}
use mathlib.Core.List.{List, [], ◌∷◌, ◌++◌}
use mathlib.Core.Option.{Option, none, some}
use native.Mathlib.Omega.{arith}
use llmtune.Prelude.Tests.{if◌then◌else◌}

module _ {ℓ} {A : Type ℓ} where
  abbrev pub length : List A → ℕ
  length [] = 0
  length (x ∷ xs) = suc (length xs)

  abbrev pub any : (A → Bool) → List A → Bool
  any p [] = false
  any p (x ∷ xs) = p x || any p xs

  abbrev pub all : (A → Bool) → List A → Bool
  all p [] = true
  all p (x ∷ xs) = p x && all p xs

  abbrev pub is_empty : List A → Bool
  is_empty [] = true
  is_empty (x ∷ xs) = false

  abbrev pub find : (A → Bool) → List A → Option A
  find p [] = none
  find p (x ∷ xs) = if p x then some x else find p xs

  abbrev pub filter : (A → Bool) → List A → List A
  filter p [] = []
  filter p (x ∷ xs) = let rest = filter p xs in if p x then x ∷ rest else rest

  abbrev pub take : ℕ → List A → List A
  take zero xs = []
  take (suc n) [] = []
  take (suc n) (x ∷ xs) = x ∷ take n xs

  abbrev pub drop : ℕ → List A → List A
  drop zero xs = xs
  drop (suc n) [] = []
  drop (suc n) (x ∷ xs) = drop n xs

  abbrev pub replicate : ℕ → A → List A
  replicate zero a = []
  replicate (suc n) a = a ∷ replicate n a

module _ {ℓ} {A : Type ℓ} where
  pub length-append : (xs ys : List A) → length (xs ++ ys) ≡ length xs + length ys
  length-append [] ys = omega arith
  length-append (x ∷ xs) ys = omega (arith, length-append xs ys)

abbrev pub All {ℓ κ} : {A : Type ℓ} → (A → Type κ) → List A → Type κ
All P [] = Unit
All P (x ∷ xs) = P x × All P xs

-- Some item satisfies `P`, with its place.
pub data Any {ℓ κ} {A : Type ℓ} (P : A → Type κ) : List A → Type (ℓ ⊔ κ) where
  here : {x : A} {xs : List A} → P x → Any P (x ∷ xs)
  there : {x : A} {xs : List A} → Any P xs → Any P (x ∷ xs)

-- What `find` gives, and whether there is anything to find.
pub find-cases {ℓ} :
    {A : Type ℓ} (p : A → Bool) (xs : List A)
    → (find p xs ≡ none) × (any p xs ≡ false)
      ⊎ ((x : A) × (find p xs ≡ some x) × (p x ≡ true) × (any p xs ≡ true))
find-cases p [] = inl (refl, refl)
find-cases p (x ∷ xs) = go (p x) refl (find-cases p xs)
  where
    go :
        (b : Bool)
        → p x ≡ b
        → (find p xs ≡ none) × (any p xs ≡ false)
          ⊎ ((y : _) × (find p xs ≡ some y) × (p y ≡ true) × (any p xs ≡ true))
        → ((if b then some x else find p xs) ≡ none) × ((b || any p xs) ≡ false)
          ⊎ ((y : _) × ((if b then some x else find p xs) ≡ some y)
              × (p y ≡ true)
              × ((b || any p xs) ≡ true))
    go true e r = inr (x, refl, e, refl)
    go false e r = r
