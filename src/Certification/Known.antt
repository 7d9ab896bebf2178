-- ===== src/Certification/Known.antt =====
-- The callbacks of the certificates do not panic, while the Secrets that they change are known.
use nginx_k8s_loadbalancer.Base.{
  String, ◌≡◌, refl, ap, ◌∙◌, Bool, true, false, some, Option, List, [], ◌∷◌, ◌==◌, eq_iff,
  if◌then◌else◌, arith, Member, inl, inr, Option-cases, eq_refl,
}
use nginx_k8s_loadbalancer.Result.{ok}
use nginx_k8s_loadbalancer.GoMap.{GoMap, lookup, insert, delete}
use nginx_k8s_loadbalancer.GoMap.Laws.{lookup-insert, lookup-delete}
use nginx_k8s_loadbalancer.Core.{SecretBytes}
use nginx_k8s_loadbalancer.Kubernetes.{Secret, Object, secret}
use nginx_k8s_loadbalancer.Certification.{
  Certificates, delete_secret, handle_add_event, handle_update_event, handle_delete_event,
}
use nginx_k8s_loadbalancer.Certification.Store.{Store, put_all_lem, delete_absent, delete_present}

-- The map of Secrets is made, and has the known ones.
pub record Knows (known : List String) (c : Certificates) : Type 0 where
  pub store : Store
  pub made : c.certificates ≡ some store
  pub has :
      (name : String)
      → Member name known
      → (found : GoMap SecretBytes) × (lookup name store ≡ some found)

-- A write under a test leaves something to be found.
found_after :
    {V : Type 0} (b : Bool) (x : V) (o before : Option V)
    → o ≡ (if b then some x else before)
    → (b ≡ false → (y : V) × (before ≡ some y))
    → (y : V) × (o ≡ some y)
found_after true x o before reads other = (x, reads)
found_after false x o before reads other = let (y, there) = other refl in (y, reads ∙ there)

name-ne : (name other : String) → name ≡ other → (other == name) ≡ false → ⊥
name-ne name other same differ = ground (arith, eq_iff other name)

module _ (known : List String) (c : Certificates) (s : Secret) (knows : Knows known c) where
  pub handle_add_event-Knows :
      (c' : Certificates) × (handle_add_event (secret s) c ≡ ok c') × Knows (s.name ∷ known) c'
  unfolding handle_add_event
  handle_add_event-Knows =
      let m = knows.store in
      let (m', done, reads) =
        put_all_lem s.name s.contents [] (insert s.name [] m) (rw (lookup-insert, eq_refl)) in
      (
        record c { certificates = some m' },
        rw (knows.made) (rw done refl),
        record {
          store = m';
          made = refl;
          has = λ name h. found_after (s.name == name) _ _ _ (reads name) (λ differ. elim h [
            | inl e ↦ absurd (name-ne name s.name e differ)
            | inr known_before ↦
                let (found, there) = knows.has name known_before in
                (found, lookup-insert s.name name [] m ∙ rw differ there)
          ]);
        },
      )

  pub handle_update_event-Knows :
      (old : Object)
      → Member s.name known
      → (c' : Certificates) × (handle_update_event old (secret s) c ≡ ok c') × Knows known c'
  unfolding handle_update_event
  handle_update_event-Knows old member =
      let m = knows.store in
      let (found, there) = knows.has s.name member in
      let (m', done, reads) = put_all_lem s.name s.contents found m there in
      (
        record c { certificates = some m' },
        rw (knows.made) (rw done refl),
        record {
          store = m';
          made = refl;
          has = λ name h.
              found_after (s.name == name) _ _ _ (reads name) (λ differ. knows.has name h);
        },
      )

  pub handle_delete_event-Knows :
      (left : List String)
      → ((name : String) → Member name left → Member name known × ((s.name == name) ≡ false))
      → (c' : Certificates) × (handle_delete_event (secret s) c ≡ ok c') × Knows left c'
  unfolding handle_delete_event
  handle_delete_event-Knows left fewer = elim (Option-cases (lookup s.name knows.store)) [
    | inl absent ↦ (
      c,
      ap (λ o. ok (delete_secret c s o)) knows.made ∙ ap ok (delete_absent c s knows.store absent),
      record {
        store = knows.store;
        made = knows.made;
        has = λ name h. knows.has name (fewer name h).0;
      },
    )
    | inr (found, present) ↦ (
      record c { certificates = some (delete s.name knows.store) },
      ap (λ o. ok (delete_secret c s o)) knows.made
          ∙ ap ok (delete_present c s knows.store found present),
      record {
        store = delete s.name knows.store;
        made = refl;
        has = λ name h.
            let (known_before, differ) = fewer name h in
            let (found, there) = knows.has name known_before in
            (found, lookup-delete s.name name knows.store ∙ rw differ there);
      },
    )
  ]
