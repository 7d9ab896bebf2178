-- ===== src/Certification/Store.antt =====
-- What each callback does to what can be read from the store, key by key.
use nginx_k8s_loadbalancer.Base.{
  String, ◌≡◌, refl, ap, ◌∙◌, none, some, Option-cases, inl, inr, [], ◌∷◌, arith, ◌==◌, eq_iff,
  eq_refl, if◌then◌else◌,
}
use nginx_k8s_loadbalancer.Result.{ok, panic, ◌>>=◌}
use nginx_k8s_loadbalancer.GoMap.{GoMap, lookup, insert, delete, copy}
use nginx_k8s_loadbalancer.GoMap.Laws.{
  lookup-insert, lookup-delete, lookup-copy, HasDistinctKeys, or_else,
}
use nginx_k8s_loadbalancer.Core.{SecretBytes}
use nginx_k8s_loadbalancer.Kubernetes.{Secret, Object, secret}
use nginx_k8s_loadbalancer.Certification.{
  Certificates, entry, put_all, nil_map, delete_secret, add_secret, update_secret, handle_add_event,
  handle_delete_event, handle_update_event,
}

abbrev pub Store : Type 0
Store = GoMap (GoMap SecretBytes)

-- The loop over a Secret's data writes the whole of it over the entries of its name, and touches no
-- other name.
pub put_all_lem :
    (name : String) (src found : GoMap SecretBytes) (m : Store)
    → lookup name m ≡ some found
    → (m' : Store) × (put_all name src m ≡ ok m')
      × ((j : String) → lookup j m' ≡ (if name == j then some (copy src found) else lookup j m))
unfolding put_all copy
put_all_lem name [] found m h = (m, refl, λ j. ground (arith, eq_iff name j))
put_all_lem name ((k, v) ∷ src) found m h =
    let (m', done, reads) =
      put_all_lem name src (insert k v found) (insert name (insert k v found) m)
        (rw (lookup-insert, eq_refl)) in
    (m', rw h done, λ j. ground (arith, reads j, lookup-insert name j (insert k v found) m))

module _ (c : Certificates) (s : Secret) (m m' : Store) (name key : String) where
  read_added :
      lookup name m'
        ≡ (if s.name == name then some (copy s.contents []) else lookup name (insert s.name [] m))
      → c.certificates ≡ some m
      → HasDistinctKeys s.contents
      → entry name key (record c { certificates = some m' })
        ≡ (if s.name == name then lookup key s.contents else entry name key c)
  unfolding entry lookup
  read_added reads ready distinct =
      ground (arith, lookup-insert s.name name [] m, lookup-copy s.contents [] key distinct)

  read_updated :
      (found : GoMap SecretBytes)
      → lookup s.name m ≡ some found
      → lookup name m' ≡ (if s.name == name then some (copy s.contents found) else lookup name m)
      → c.certificates ≡ some m
      → HasDistinctKeys s.contents
      → entry name key (record c { certificates = some m' }) ≡ (
          if s.name == name
          then or_else (lookup key s.contents) (entry name key c)
          else entry name key c)
  unfolding entry
  read_updated found known reads ready distinct =
      ground (arith, lookup-copy s.contents found key distinct, eq_iff s.name name)

module _ (c : Certificates) (s : Secret) (m : Store) where
  pub delete_absent : lookup s.name m ≡ none → delete_secret c s (some m) ≡ c
  delete_absent h = rw (h, delete_secret)

  pub delete_present :
      (found : GoMap SecretBytes)
      → lookup s.name m ≡ some found
      → delete_secret c s (some m) ≡ record c { certificates = some (delete s.name m) }
  delete_present found h = rw (h, delete_secret)

-- What the three callbacks do on a Secret, once the map is made.
module _ (c : Certificates) (s : Secret) (m : Store) (ready : c.certificates ≡ some m) where
  -- Once the map of Secrets is made, an Add of a Secret whose data has each key once returns with
  -- no panic; after it the entries of the Secret's name are the Secret's data and nothing else; the
  -- entries of other names are unchanged.
  pub entry-handle_add_event :
      HasDistinctKeys s.contents
      → (c' : Certificates) × (handle_add_event (secret s) c ≡ ok c')
        × ((name key : String)
            → entry name key c'
              ≡ (if s.name == name then lookup key s.contents else entry name key c))
  unfolding handle_add_event
  entry-handle_add_event distinct =
      let (m', done, reads) =
        put_all_lem s.name s.contents [] (insert s.name [] m) (rw (lookup-insert, eq_refl)) in
      (
        record c { certificates = some m' },
        ap (add_secret c s) ready
            ∙ ap (λ r. r >>= λ next. ok (record c { certificates = some next })) done,
        λ name key. read_added c s m m' name key (reads name) ready distinct,
      )

  -- Once the map of Secrets is made, an Update of a known Secret whose data has each key once
  -- returns with no panic and writes the data over the old data, and keeps the old entries of keys
  -- that the Secret no longer has.
  pub entry-handle_update_event :
      (old : Object) (found : GoMap SecretBytes)
      → lookup s.name m ≡ some found
      → HasDistinctKeys s.contents
      → (c' : Certificates) × (handle_update_event old (secret s) c ≡ ok c')
        × ((name key : String)
            → entry name key c' ≡ (
                if s.name == name
                then or_else (lookup key s.contents) (entry name key c)
                else entry name key c))
  unfolding handle_update_event
  entry-handle_update_event old found known distinct =
      let (m', done, reads) = put_all_lem s.name s.contents found m known in
      (
        record c { certificates = some m' },
        ap (update_secret c s) ready
            ∙ ap (λ r. r >>= λ next. ok (record c { certificates = some next })) done,
        λ name key. read_updated c s m m' name key found known (reads name) ready distinct,
      )

  -- Once the map of Secrets is made, an Update of an unknown Secret that has data is a write into a
  -- nil map: it panics.
  pub handle_update_event-unknown :
      (old : Object) (k : String) (v : SecretBytes) (rest : GoMap SecretBytes)
      → lookup s.name m ≡ none
      → s.contents ≡ (k, v) ∷ rest
      → handle_update_event old (secret s) c ≡ panic nil_map
  unfolding handle_update_event put_all
  handle_update_event-unknown old k v rest unknown filled = ground arith

  -- Once the map of Secrets is made, a Delete returns with no panic, and after it nothing is left
  -- of the Secret's name; other names are unchanged.
  pub entry-handle_delete_event :
      (c' : Certificates) × (handle_delete_event (secret s) c ≡ ok c')
      × ((name key : String)
          → entry name key c' ≡ (if s.name == name then none else entry name key c))
  unfolding handle_delete_event entry
  entry-handle_delete_event = elim (Option-cases (lookup s.name m)) [
    | inl absent ↦ (
      c,
      ap (λ o. ok (delete_secret c s o)) ready ∙ ap ok (delete_absent c s m absent),
      λ name key. ground (arith, eq_iff s.name name),
    )
    | inr (found, present) ↦ (
      record c { certificates = some (delete s.name m) },
      ap (λ o. ok (delete_secret c s o)) ready ∙ ap ok (delete_present c s m found present),
      λ name key. ground (arith, lookup-delete s.name name m),
    )
  ]
