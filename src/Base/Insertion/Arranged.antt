-- ===== src/Base/Insertion/Arranged.antt =====
-- Two lists with the same members, as often, in any order.
use mathlib.Core.List.{List, [], ◌∷◌}
use mathlib.Core.Logic.{◌≢◌, ◌⊎◌, inl, inr}
use mathlib.Core.Path.{◌≡◌, refl, sym, ap, subst, ◌∙◌}
use Prim.Native.Nat.{suc}
use nginx_k8s_loadbalancer.Base.Lists.{length}
use nginx_k8s_loadbalancer.Base.Insertion.{Inserted, first, later}

pub data Arranged {A : Type 0} : List A → List A → Type 0 where
  nothing : Arranged [] []
  one_more :
      {x : A} {xs ys xs' ys' : List A}
      → Inserted x xs xs'
      → Inserted x ys ys'
      → Arranged xs ys
      → Arranged xs' ys'

module _ {A : Type 0} where
  pub length-Inserted : {x : A} {xs ys : List A} → Inserted x xs ys → length ys ≡ suc (length xs)
  length-Inserted (first xs) = refl
  length-Inserted (later y inserted) = ap suc (length-Inserted inserted)

  pub length-Arranged : {xs ys : List A} → Arranged xs ys → length ys ≡ length xs
  length-Arranged nothing = refl
  length-Arranged (one_more here there rest) =
      length-Inserted there ∙ ap suc (length-Arranged rest) ∙ sym (length-Inserted here)

  not_empty : {x : A} {xs ys : List A} → Inserted x xs ys → ys ≢ []
  not_empty (first xs) = λ empty. cc
  not_empty (later y inserted) = λ empty. cc

  -- Two members that are inserted, in the other order.
  swapped :
      {x y : A} {xs ys zs : List A}
      → Inserted x xs ys
      → Inserted y ys zs
      → (l : List A) × Inserted y xs l × Inserted x l zs
  swapped {y} {xs} inner (first _) = (y ∷ xs, first xs, later y inner)
  swapped (first _) (later _ outer) = (_, outer, first _)
  swapped (later {xs = us} z inner) (later {xs = vs} {ys = ws} _ outer) =
      let (l, here, there) = swapped {xs = us} {ys = vs} {zs = ws} inner outer in
      (z ∷ l, later z here, later z there)

  -- Two ways to take a member out are one and the same, or both may be taken.
  diamond :
      {x y : A} {xs ys zs : List A}
      → Inserted x xs zs
      → Inserted y ys zs
      → ((x ≡ y) × (xs ≡ ys)) ⊎ ((l : List A) × Inserted y l xs × Inserted x l ys)
  diamond (first _) (first _) = inl (refl, refl)
  diamond (first _) (later _ inner) = inr (_, inner, first _)
  diamond (later _ inner) (first _) = inr (_, first _, inner)
  diamond (later z here) (later _ there) = elim (diamond here there) [
    | inl (same, rest) ↦ inl (same, ap (λ l. z ∷ l) rest)
    | inr (l, k, m) ↦ inr (z ∷ l, later z k, later z m)
  ]

  -- What is taken out of one list can be taken out of the other.
  pub Arranged-taken :
      {x : A} {xs ys left : List A}
      → Arranged xs ys
      → Inserted x left xs
      → (others : List A) × Inserted x others ys × Arranged left others
  Arranged-taken nothing taken = absurd (not_empty taken refl)
  Arranged-taken (one_more {ys} {ys'} here there rest) taken = elim (diamond taken here) [
    | inl (same, left_is) ↦ (
      ys,
      subst (λ z. Inserted z ys ys') (sym same) there,
      subst (λ l. Arranged l ys) (sym left_is) rest,
    )
    | inr (l, y_left, x_rest) ↦
        let (others, x_others, arranged) = Arranged-taken rest x_rest in
        let (more, y_more, x_more) = swapped x_others there in
        (more, x_more, one_more y_left y_more arranged)
  ]
