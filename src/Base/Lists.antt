-- ===== src/Base/Lists.antt =====
-- Lists measured by native numbers, and predicates on all members.
use Prim.Native.Nat.{ℕ, suc, ◌+◌}
use mathlib.Core.Path.{◌≡◌, refl, ap, sym, subst}
use mathlib.Core.Logic.{◌⊎◌, inl, inr}
use mathlib.Core.List.{List, [], ◌∷◌, ◌++◌, map}
use native.Mathlib.Omega.{arith}

module _ {ℓ} {A : Type ℓ} where
  abbrev pub length : List A → ℕ
  length [] = 0
  length (x ∷ xs) = suc (length xs)

  pub length-append : (xs ys : List A) → length (xs ++ ys) ≡ length xs + length ys
  length-append [] ys = omega arith
  length-append (x ∷ xs) ys = omega (arith, length-append xs ys)

  pub List-cases : (xs : List A) → (xs ≡ []) ⊎ ((x : A) × (rest : List A) × (xs ≡ x ∷ rest))
  List-cases [] = inl refl
  List-cases (x ∷ xs) = inr (x, xs, refl)

module _ {ℓ κ} {A : Type ℓ} {B : Type κ} where
  pub length-map : (f : A → B) (xs : List A) → length (map f xs) ≡ length xs
  length-map f [] = refl
  length-map f (x ∷ xs) = ap suc (length-map f xs)

-- A predicate holds of all members of a list.
module _ {ℓ κ} {Member : Type ℓ} where
  abbrev pub All : (Member → Type κ) → List Member → Type κ
  All Holds [] = Unit
  All Holds (first ∷ rest) = Holds first × All Holds rest

  pub All-append :
      (Holds : Member → Type κ) (front back : List Member)
      → All Holds front
      → All Holds back
      → All Holds (front ++ back)
  All-append Holds [] back nothing k = k
  All-append Holds (first ∷ rest) back (h, hs) k = (h, All-append Holds rest back hs k)

-- A member of a list.
abbrev pub Member : {A : Type 0} → A → List A → Type 0
Member x [] = ⊥
Member x (y ∷ ys) = (x ≡ y) ⊎ Member x ys

-- What holds of all members holds of each.
pub All-Member :
    {A : Type 0} (Holds : A → Type 0) (x : A) (xs : List A) → All Holds xs → Member x xs → Holds x
All-Member Holds x [] all m = absurd m
All-Member Holds x (y ∷ ys) (h, hs) (inl e) = subst Holds (sym e) h
All-Member Holds x (y ∷ ys) (h, hs) (inr m) = All-Member Holds x ys hs m
