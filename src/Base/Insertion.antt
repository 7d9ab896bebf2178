-- ===== src/Base/Insertion.antt =====
-- A list with one more member.
pub mod Arranged
use mathlib.Core.List.{List, ◌∷◌}

-- The second list is the first with one more member, at any place.
pub data Inserted {A : Type 0} (x : A) : List A → List A → Type 0 where
  first : (xs : List A) → Inserted x xs (x ∷ xs)
  later : {xs ys : List A} (y : A) → Inserted x xs ys → Inserted x (y ∷ xs) (y ∷ ys)
