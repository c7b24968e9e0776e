-- ===== src/Prelude/Lists.antt =====
-- Lists as the program's arrays use them: filters and searches by a Boolean test.
use Prim.Native.Nat.{ℕ, zero, suc, ◌+◌, ◌≤◌}
use Prim.Native.String.{String}
use mathlib.Core.Path.{◌≡◌, refl}
use mathlib.Core.Logic.{◌⊎◌, inl, inr, ◌↔◌}
use mathlib.Core.Bool.{Bool, true, false, ◌&&◌, ◌||◌}
use mathlib.Core.Option
use mathlib.Core.Option.{Option, none, some}
use mathlib.Core.List.{List, [], ◌∷◌, ◌++◌}
use native.Mathlib.Omega.{arith}
use bu3li_comms.Prelude.Tests.{if◌then◌else◌, ◌==◌, Bool-cases}

module _ {ℓ} {A : Type ℓ} where
  abbrev pub length : List A → ℕ
  length [] = 0
  length (x ∷ xs) = suc (length xs)

  -- `xs.filter(p)`
  abbrev pub filter : (A → Bool) → List A → List A
  filter p [] = []
  filter p (x ∷ xs) = let rest = filter p xs in if p x then x ∷ rest else rest

  -- `xs.find(p)`
  abbrev pub find : (A → Bool) → List A → Option A
  find p [] = none
  find p (x ∷ xs) = if p x then some x else find p xs

  abbrev pub any : (A → Bool) → List A → Bool
  any p [] = false
  any p (x ∷ xs) = p x || any p xs

  abbrev pub all : (A → Bool) → List A → Bool
  all p [] = true
  all p (x ∷ xs) = p x && all p xs

  -- `xs.findIndex(p)`, with `none` for -1
  abbrev pub find_index : (A → Bool) → List A → Option ℕ
  find_index p [] = none
  find_index p (x ∷ xs) = if p x then some 0 else Option.map suc (find_index p xs)

  -- `xs.map((x, j) => (j === i ? v : x))`
  abbrev pub set : List A → ℕ → A → List A
  set [] i v = []
  set (x ∷ xs) zero v = v ∷ xs
  set (x ∷ xs) (suc i) v = x ∷ set xs i v

  pub List-cases : (xs : List A) → (xs ≡ []) ⊎ ((y : A) × (ys : List A) × (xs ≡ y ∷ ys))
  List-cases [] = inl refl
  List-cases (y ∷ ys) = inr (y, ys, refl)

  pub any-append : (p : A → Bool) (xs ys : List A) → any p (xs ++ ys) ≡ (any p xs || any p ys)
  any-append p [] ys = refl
  any-append p (x ∷ xs) ys = ground (arith, any-append p xs ys)

  pub length-append : (xs ys : List A) → length (xs ++ ys) ≡ length xs + length ys
  length-append [] ys = omega arith
  length-append (x ∷ xs) ys = omega (arith, length-append xs ys)

  pub length-filter-le : (p : A → Bool) (xs : List A) → length (filter p xs) ≤ length xs
  length-filter-le p [] = omega arith
  length-filter-le p (x ∷ xs) = ground (arith, length-filter-le p xs)

-- `xs.includes(x)`, for an array of texts
abbrev pub includes : String → List String → Bool
includes x xs = any (λ y. y == x) xs

module _ {ℓ κ} {A : Type ℓ} (P : A → Type κ) where
  abbrev pub All : List A → Type κ
  All [] = Unit
  All (x ∷ xs) = P x × All xs

  pub All-append : (xs ys : List A) → All xs → All ys → All (xs ++ ys)
  All-append [] ys h k = k
  All-append (x ∷ xs) ys (p, h) k = (p, All-append xs ys h k)

  pub All-filter : (p : A → Bool) (xs : List A) → All xs → All (filter p xs)
  All-filter p [] h = tt
  All-filter p (x ∷ xs) (px, h) = ground (arith, All-filter p xs h)

-- `y` is an element of the list.
module _ {A : Type 0} where
  abbrev pub In : A → List A → Type 0
  In y [] = ⊥
  In y (x ∷ xs) = (y ≡ x) ⊎ In y xs

  pub In-All {κ} : (P : A → Type κ) (x : A) (xs : List A) → All P xs → In x xs → P x
  In-All P x [] h i = elim i [ ]
  In-All P x (y ∷ ys) (p, h) (inl e) = rw e p
  In-All P x (y ∷ ys) (p, h) (inr i) = In-All P x ys h i

  pub filter-All : (p : A → Bool) (xs : List A) → All (λ x. p x ≡ true) xs → filter p xs ≡ xs
  filter-All p [] h = refl
  filter-All p (x ∷ xs) (e, h) = ground (arith, filter-All p xs h)

  pub All-filter_self : (p : A → Bool) (xs : List A) → All (λ x. p x ≡ true) (filter p xs)
  All-filter_self p [] = tt
  All-filter_self p (x ∷ xs) = ground (arith, All-filter_self p xs)

  pub In-filter :
      (p : A → Bool) (x : A) (xs : List A) → In x (filter p xs) ↔ (In x xs × (p x ≡ true))
  In-filter p x [] = ground arith
  In-filter p x (y ∷ ys) = ground (arith, In-filter p x ys)

  pub In-append : (x : A) (xs ys : List A) → In x (xs ++ ys) ↔ (In x xs ⊎ In x ys)
  In-append x [] ys = ground arith
  In-append x (y ∷ xs) ys = ground (arith, In-append x xs ys)

  pub any_of_In : (p : A → Bool) (x : A) (xs : List A) → In x xs → p x ≡ true → any p xs ≡ true
  any_of_In p x [] i e = elim i [ ]
  any_of_In p x (y ∷ ys) i e = ground (arith, any_of_In p x ys)

  pub In-of_any : (p : A → Bool) (xs : List A) → any p xs ≡ true → (x : A) × In x xs × (p x ≡ true)
  In-of_any p [] e = absurd (cc)
  In-of_any p (y ∷ ys) e = elim (Bool-cases (p y)) [
    | inl q ↦ (y, inl refl, q)
    | inr q ↦ let (x, i, px) = In-of_any p ys (ground arith) in (x, inr i, px)
  ]
