-- ===== src/Synchronization/Upstreams/Shows.antt =====
-- What one upstream should show after changes were tried, one after the other.
use nginx_k8s_loadbalancer.Base.{
  String, ◌≡◌, ◌≢◌, refl, sym, ap, ◌∙◌, subst, inl, inr, List, [], ◌∷◌, ◌++◌, All, arith,
}
use nginx_k8s_loadbalancer.Base.Insertion.{Inserted}
use nginx_k8s_loadbalancer.Text.Decimal.{ℤ}
use nginx_k8s_loadbalancer.Result.{Result, ok, err, panic}
use nginx_k8s_loadbalancer.Core.{
  EventType, created, updated, deleted, other, UpstreamServer, ServerUpdateEvent,
}
use nginx_k8s_loadbalancer.Application.Upstreams.{
  Naming, Target, Target-cases, target_of, Table, SameServers, servers_of,
}
use nginx_k8s_loadbalancer.Synchronization.Delivery.Calls.{IsUpdate}
use nginx_k8s_loadbalancer.Synchronization.Upstreams.{Delivers}

-- A change that was sent, and what came of it.
abbrev pub Try : Type 0
Try = ServerUpdateEvent × Result (Unit {0})

-- From these servers to those by the tries, in order: a change that succeeds sets them, in any order, or
-- takes one out; one that fails leaves any; one for another upstream, or of an unknown type, none.
pub data Shows (naming : Naming) (t : Target) : List Try → List String → List String → Type 0 where
  untried : (l : List String) → Shows naming t [] l l
  elsewhere :
      {l l' : List String} {tries : List Try} (e : ServerUpdateEvent) (r : Result (Unit {0}))
      → t ≢ target_of naming e
      → Shows naming t tries l l'
      → Shows naming t ((e, r) ∷ tries) l l'
  ignored :
      {l l' : List String} {tries : List Try} (e : ServerUpdateEvent) (r : Result (Unit {0}))
      (n : ℤ)
      → e.event_type ≡ other n
      → Shows naming t tries l l'
      → Shows naming t ((e, r) ∷ tries) l l'
  failed :
      {l l' : List String} {tries : List Try} (e : ServerUpdateEvent) (r : Result (Unit {0}))
      (m : List String)
      → t ≡ target_of naming e
      → r ≢ ok tt
      → Shows naming t tries m l'
      → Shows naming t ((e, r) ∷ tries) l l'
  set :
      {l l' : List String} {tries : List Try} (e : ServerUpdateEvent) (r : Result (Unit {0}))
      (m : List String)
      → t ≡ target_of naming e
      → r ≡ ok tt
      → IsUpdate e.event_type
      → SameServers m (servers_of naming e)
      → Shows naming t tries m l'
      → Shows naming t ((e, r) ∷ tries) l l'
  removed :
      {l l' : List String} {tries : List Try} (e : ServerUpdateEvent) (r : Result (Unit {0}))
      (s : UpstreamServer) (rest : List UpstreamServer) (m : List String)
      → t ≡ target_of naming e
      → r ≡ ok tt
      → e.event_type ≡ deleted
      → e.upstream_servers ≡ s ∷ rest
      → Inserted (naming.listed_as s.host) m l
      → Shows naming t tries m l'
      → Shows naming t ((e, r) ∷ tries) l l'

module _ (naming : Naming) (t : Target) (e : ServerUpdateEvent) (before after : Table)
    {tries : List Try} {l' : List String} where
  set_to :
      (servers : List String)
      → after t ≡ servers
      → Shows naming t tries (after t) l'
      → Shows naming t tries servers l'
  set_to servers same shows = subst (λ l. Shows naming t tries l l') same shows

  at_target :
      (r : Result (Unit {0})) (ty : EventType)
      → e.event_type ≡ ty
      → t ≡ target_of naming e
      → Delivers naming e r before after
      → Shows naming t tries (after t) l'
      → Shows naming t ((e, r) ∷ tries) (before t) l'
  at_target (err x) ty kind here d shows = failed e (err x) (after t) here (λ h. ground arith) shows
  at_target (panic p) ty kind here d shows =
      failed e (panic p) (after t) here (λ h. ground arith) shows
  at_target (ok u) created kind here d shows =
      let known : IsUpdate e.event_type = subst IsUpdate (sym kind) tt in
      set e (ok u) (after t) here refl known
        (subst (λ x. SameServers (after x) (servers_of naming e)) (sym here) (d.set refl known))
        shows
  at_target (ok u) updated kind here d shows =
      let known : IsUpdate e.event_type = subst IsUpdate (sym kind) tt in
      set e (ok u) (after t) here refl known
        (subst (λ x. SameServers (after x) (servers_of naming e)) (sym here) (d.set refl known))
        shows
  at_target (ok u) deleted kind here d shows =
      let (s, rest, named, one) = d.removed refl kind in
      removed e (ok u) s rest (after t) here refl kind named
        (subst (λ x. Inserted (naming.listed_as s.host) (after x) (before x)) (sym here) one) shows
  at_target (ok u) (other n) kind here d shows =
      ignored e (ok u) n kind
        (set_to _ (ap after here ∙ d.ignored n kind ∙ ap before (sym here)) shows)

  -- One more try, before others.
  pub Delivers-Shows :
      (r : Result (Unit {0}))
      → Delivers naming e r before after
      → Shows naming t tries (after t) l'
      → Shows naming t ((e, r) ∷ tries) (before t) l'
  Delivers-Shows r d shows = elim (Target-cases t (target_of naming e)) [
    | inl here ↦ at_target r e.event_type refl here d shows
    | inr away ↦ elsewhere e r away (set_to _ (d.writes_only t away) shows)
  ]

-- Tries at other upstreams leave this one alone.
Shows-away :
    (naming : Naming) (t : Target) (l l' : List String) (tries : List Try)
    → All (λ (x : Try). t ≢ target_of naming x.0) tries
    → Shows naming t tries l l'
    → l' ≡ l
Shows-away naming t l l' [] away (untried same) = refl
Shows-away naming t l l' (x ∷ tries) (ne, away) (elsewhere e r other_one shows) =
    Shows-away naming t l l' tries away shows
Shows-away naming t l l' (x ∷ tries) (ne, away) (ignored e r n unknown shows) =
    Shows-away naming t l l' tries away shows
Shows-away naming t l l' (x ∷ tries) (ne, away) (failed e r m here bad shows) = absurd (ne here)
Shows-away naming t l l' (x ∷ tries) (ne, away) (set e r m here done kind same shows) =
    absurd (ne here)
Shows-away naming t l l' (x ∷ tries) (ne, away)
      (removed e r s rest m here done kind named one shows) =
    absurd (ne here)

-- The last change that was tried at an upstream, if it succeeded and sets servers, is what it shows.
pub Shows-last :
    (naming : Naming) (t : Target) (e : ServerUpdateEvent) (l l' : List String)
    (earlier later : List Try)
    → t ≡ target_of naming e
    → IsUpdate e.event_type
    → All (λ (x : Try). t ≢ target_of naming x.0) later
    → Shows naming t (earlier ++ (e, ok tt) ∷ later) l l'
    → SameServers l' (servers_of naming e)
Shows-last naming t e l l' [] later here kind away (elsewhere _ _ ne shows) = absurd (ne here)
Shows-last naming t e l l' [] later here kind away (ignored _ _ n unknown shows) =
    absurd (subst IsUpdate unknown kind)
Shows-last naming t e l l' [] later here kind away (failed _ _ m at_it bad shows) =
    absurd (bad refl)
Shows-last naming t e l l' [] later here kind away (set _ _ m at_it done sets same shows) =
    subst (λ l. SameServers l (servers_of naming e))
      (sym (Shows-away naming t m l' later away shows)) same
Shows-last naming t e l l' [] later here kind away
      (removed _ _ s rest m at_it done gone named one shows) =
    absurd (subst IsUpdate gone kind)
Shows-last naming t e l l' (x ∷ xs) later here kind away (elsewhere _ _ ne shows) =
    Shows-last naming t e l l' xs later here kind away shows
Shows-last naming t e l l' (x ∷ xs) later here kind away (ignored _ _ n unknown shows) =
    Shows-last naming t e l l' xs later here kind away shows
Shows-last naming t e l l' (x ∷ xs) later here kind away (failed _ _ m at_it bad shows) =
    Shows-last naming t e m l' xs later here kind away shows
Shows-last naming t e l l' (x ∷ xs) later here kind away (set _ _ m at_it done sets same shows) =
    Shows-last naming t e m l' xs later here kind away shows
Shows-last naming t e l l' (x ∷ xs) later here kind away
      (removed _ _ s rest m at_it done gone named one shows) =
    Shows-last naming t e m l' xs later here kind away shows
