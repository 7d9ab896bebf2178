-- ===== src/GoMap/Laws.antt =====
-- The laws of maps, in the form that serves `simp` and `ground` alike.
use nginx_k8s_loadbalancer.Base.{
  String, ◌≡◌, refl, Option, none, some, [], ◌∷◌, arith, ◌==◌, eq_iff, if◌then◌else◌,
}
use nginx_k8s_loadbalancer.GoMap.{GoMap, lookup, insert, delete, copy}

module _ {ℓ} {V : Type ℓ} where
  pub lookup-insert :
      (key other : String) (value : V) (m : GoMap V)
      → lookup other (insert key value m) ≡ (if key == other then some value else lookup other m)
  unfolding lookup insert
  lookup-insert key other value [] = refl
  lookup-insert key other value ((name, old) ∷ entries) = ground (
    arith,
    lookup-insert key other value entries,
    eq_iff name key,
    eq_iff name other,
    eq_iff key other,
  )

  pub lookup-delete :
      (key other : String) (m : GoMap V)
      → lookup other (delete key m) ≡ (if key == other then none else lookup other m)
  unfolding lookup delete
  lookup-delete key other [] = ground arith
  lookup-delete key other ((name, old) ∷ entries) =
      ground (
        arith,
        lookup-delete key other entries,
        eq_iff name key,
        eq_iff name other,
        eq_iff key other,
      )

  -- A map has each key once.
  abbrev pub HasDistinctKeys : GoMap V → Type ℓ
  HasDistinctKeys [] = Unit
  HasDistinctKeys ((k, v) ∷ m) = (lookup k m ≡ none) × HasDistinctKeys m

  abbrev pub or_else : Option V → Option V → Option V
  or_else none o = o
  or_else (some v) o = some v

  -- Copying one map over another: the keys of the source win.
  pub lookup-copy :
      (src dst : GoMap V) (j : String)
      → HasDistinctKeys src
      → lookup j (copy src dst) ≡ or_else (lookup j src) (lookup j dst)
  unfolding lookup copy
  lookup-copy [] dst j h = refl
  lookup-copy ((k, v) ∷ src) dst j (fresh, h) =
      ground (arith, lookup-copy src (insert k v dst) j h, lookup-insert k j v dst, eq_iff k j)
