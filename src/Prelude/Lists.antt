-- ===== src/Prelude/Lists.antt =====
-- Lists measured by native numbers, and predicates on the items of a list.
use Prim.Native.Nat.{ℕ, suc, ◌+◌}
use mathlib.Core.Path.{◌≡◌, refl}
use mathlib.Core.Logic.{◌↔◌, ◌⊎◌}
use mathlib.Core.Bool.{Bool, true, false, ◌&&◌, ◌||◌}
use mathlib.Core.List.{List, [], ◌∷◌, ◌++◌}
use mathlib.Core.Option.{Option, none, some}
use native.Mathlib.Omega.{arith}
use certio.Prelude.Tests.{if◌then◌else◌}

module _ {ℓ} {A : Type ℓ} where
  abbrev pub length : List A → ℕ
  length [] = 0
  length (_ ∷ xs) = suc (length xs)

  pub length-append : (xs ys : List A) → length (xs ++ ys) ≡ length xs + length ys
  length-append [] ys = omega arith
  length-append (_ ∷ xs) ys = omega (arith, length-append xs ys)

  abbrev pub is_empty : List A → Bool
  is_empty [] = true
  is_empty (_ ∷ _) = false

  abbrev pub any : (A → Bool) → List A → Bool
  any p [] = false
  any p (x ∷ xs) = p x || any p xs

  abbrev pub all : (A → Bool) → List A → Bool
  all p [] = true
  all p (x ∷ xs) = p x && all p xs

  pub any-append : (p : A → Bool) (xs ys : List A) → any p (xs ++ ys) ≡ (any p xs || any p ys)
  any-append p [] ys = refl
  any-append p (x ∷ xs) ys = ground (arith, any-append p xs ys)

  pub all-append : (p : A → Bool) (xs ys : List A) → all p (xs ++ ys) ≡ (all p xs && all p ys)
  all-append p [] ys = refl
  all-append p (x ∷ xs) ys = ground (arith, all-append p xs ys)

  -- The items that pass a test, in their order.
  abbrev pub keep : (A → Bool) → List A → List A
  keep p [] = []
  keep p (x ∷ xs) = if p x then x ∷ keep p xs else keep p xs

  -- The first item that passes a test.
  abbrev pub first : (A → Bool) → List A → Option A
  first p [] = none
  first p (x ∷ xs) = if p x then some x else first p xs

module _ {ℓ κ} {A : Type ℓ} (P : A → Type κ) where
  abbrev pub All : List A → Type κ
  All [] = Unit
  All (x ∷ xs) = P x × All xs

  pub All-append : (xs ys : List A) → All xs → All ys → All (xs ++ ys)
  All-append [] ys h k = k
  All-append (x ∷ xs) ys (p, h) k = (p, All-append xs ys h k)

  pub All-keep : (t : A → Bool) (xs : List A) → All xs → All (keep t xs)
  All-keep t [] h = tt
  All-keep t (x ∷ xs) (p, h) = go (t x) (All-keep t xs h)
    where
      go : (b : Bool) → All (keep t xs) → All (if b then x ∷ keep t xs else keep t xs)
      go true k = (p, k)
      go false k = k

module _ {ℓ} {A : Type ℓ} (P : A → Type 0) where
  abbrev pub Exists : List A → Type 0
  Exists [] = ⊥
  Exists (x ∷ xs) = P x ⊎ Exists xs

module _ {ℓ} {A : Type ℓ} {p : A → Bool} {P : A → Type 0} (iff : (a : A) → (p a ≡ true) ↔ P a) where
  -- A test by recursion decides the predicate by recursion.
  pub any_iff : (xs : List A) → (any p xs ≡ true) ↔ Exists P xs
  any_iff [] = ground arith
  any_iff (x ∷ xs) = ground (arith, iff x, any_iff xs)

  pub all_iff : (xs : List A) → (all p xs ≡ true) ↔ All P xs
  all_iff [] = ground arith
  all_iff (x ∷ xs) = ground (arith, iff x, all_iff xs)

module _ {ℓ} {A : Type ℓ} where
  -- The first item that passes a test, where only the last one does.
  pub first-append :
      (p : A → Bool) (xs : List A) (y : A)
      → any p xs ≡ false
      → p y ≡ true
      → first p (xs ++ y ∷ []) ≡ some y
  first-append p [] y h k = ground arith
  first-append p (x ∷ xs) y h k = ground (arith, first-append p xs y)

  pub any-first : (p : A → Bool) (xs : List A) (y : A) → first p xs ≡ some y → any p xs ≡ true
  any-first p [] y h = cc
  any-first p (x ∷ xs) y h = ground (arith, any-first p xs y)

  pub any-or : (p q : A → Bool) (xs : List A) → any (λ x. p x || q x) xs ≡ (any p xs || any q xs)
  any-or p q [] = refl
  any-or p q (x ∷ xs) = ground (arith, any-or p q xs)

  pub first_holds : (p : A → Bool) (xs : List A) (y : A) → first p xs ≡ some y → p y ≡ true
  first_holds p [] y h = cc
  first_holds p (x ∷ xs) y h = ground (arith, first_holds p xs y)

  pub first-none : (p : A → Bool) (xs : List A) → first p xs ≡ none → any p xs ≡ false
  first-none p [] h = refl
  first-none p (x ∷ xs) h = ground (arith, first-none p xs)

module _ {ℓ} {A : Type ℓ} (p q : A → Bool) where
  -- None passes a test if none passes one of two.
  pub any-first_of : (xs : List A) → any (λ x. p x || q x) xs ≡ false → any p xs ≡ false
  any-first_of [] h = refl
  any-first_of (x ∷ xs) h = ground (arith, any-first_of xs)
