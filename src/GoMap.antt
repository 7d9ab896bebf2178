-- ===== src/GoMap.antt =====
-- Go's map[string]V as an association list: a lookup reads the first entry of a key, and an
-- assignment replaces it. `for k, v := range m` visits the entries in the order of the list, which
-- stands for the order that the run happens to choose.
pub mod Laws
use nginx_k8s_loadbalancer.Base.{
  ℕ, String, Bool, Option, none, some, List, [], ◌∷◌, ◌==◌, if◌then◌else◌,
}

abbrev pub GoMap {ℓ} : Type ℓ → Type ℓ
GoMap V = List (String × V)

module _ {ℓ} {V : Type ℓ} where
  -- v, ok := m[key]
  unfoldable pub lookup : String → GoMap V → Option V
  lookup key [] = none
  lookup key ((name, value) ∷ entries) = if name == key then some value else lookup key entries

  -- m[key] = value
  unfoldable pub insert : String → V → GoMap V → GoMap V
  insert key value [] = (key, value) ∷ []
  insert key value ((name, old) ∷ entries) =
      let rest = insert key value entries in
      if name == key then (key, value) ∷ entries else (name, old) ∷ rest

  -- delete(m, key)
  unfoldable pub delete : String → GoMap V → GoMap V
  delete key [] = []
  delete key ((name, old) ∷ entries) =
      let rest = delete key entries in if name == key then rest else (name, old) ∷ rest

  -- for key, value := range src { dst[key] = value }
  unfoldable pub copy : GoMap V → GoMap V → GoMap V
  copy [] dst = dst
  copy ((key, value) ∷ src) dst = copy src (insert key value dst)
