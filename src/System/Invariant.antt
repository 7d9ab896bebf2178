-- ===== src/System/Invariant.antt =====
-- Where every item of the running program comes from, and that its settings stay usable.
use nginx_k8s_loadbalancer.Base.Insertion.{Inserted, first, later}
use nginx_k8s_loadbalancer.Base.{
  ◌<◌, String, ◌≡◌, ◌≢◌, refl, sym, subst, Option-cases, arith, some, List, [], ◌∷◌, inl, inr, ℕ,
  zero, suc, All, Member, All-Member,
}
use nginx_k8s_loadbalancer.Core.{Event, ServerUpdateEvent}
use nginx_k8s_loadbalancer.Certification.{Certificates}
use nginx_k8s_loadbalancer.Certification.Known.{Knows}
use nginx_k8s_loadbalancer.Configuration.TlsModes.{IsNamed}
use nginx_k8s_loadbalancer.Configuration.Settings.{Process}
use nginx_k8s_loadbalancer.Translation.Relation.{Translates}
use nginx_k8s_loadbalancer.Translation.Counts.{Translates-IsChange}
use nginx_k8s_loadbalancer.WorkQueue.{WorkQueue, HoldsOnlyAdded, item, Ref}
use nginx_k8s_loadbalancer.Synchronization.Queueing.FanOut.{FansOut, IsCopy, All-FansOut}
use nginx_k8s_loadbalancer.Synchronization.Queueing.Enqueued.{Enqueued, all_added, added, skipped}
use nginx_k8s_loadbalancer.Pipeline.{NamesServers, IsChange-NamesServers}
use nginx_k8s_loadbalancer.System.{Goroutines, take_at}

-- The change was made for an NGINX Plus host from an Event that was expected: it is a copy of one of
-- the changes that the translation of the Event asks for.
pub record Stems (Expected : Event → Type 0) (r : Ref ServerUpdateEvent) : Type 0 where
  pub event : Event
  pub expected : Expected event
  pub changes : List ServerUpdateEvent
  pub translated : Translates event event.service.ports changes
  pub change : ServerUpdateEvent
  pub among : Member change changes
  pub host : String
  pub copied : IsCopy host change r
  pub served : r.value.nginx_host ≢ ""

pub Stems-NamesServers :
    {Expected : Event → Type 0} {r : Ref ServerUpdateEvent}
    → Stems Expected r
    → NamesServers r.value
Stems-NamesServers {r} from =
    IsChange-NamesServers from.event.event_type from.host from.change r from.copied
      (All-Member _ from.change from.changes (Translates-IsChange from.translated) from.among)

-- The settings have certificates, with the Secrets that are known; a TLS mode; and room for a jitter.
pub record IsConfigured (known : List String) (p : Process) : Type 0 where
  pub certificates : Certificates
  pub made : p.settings.certificates ≡ some certificates
  pub knows : Knows known certificates
  pub named : IsNamed p.settings.tls_mode
  pub jitter :
      p.settings.synchronizer.min_milliseconds_jitter
      < p.settings.synchronizer.max_milliseconds_jitter

-- All that a queue holds, and all that was taken from it, has a property.
pub record AllHave {A : Type 0} {wq : WorkQueue (Ref A)} (holds : HoldsOnlyAdded wq)
    (Good : Ref A → Type 0) (q : wq.Queue) (taken : List (Ref A)) : Type 0 where
  pub waiting : (x : Ref A) → holds.Holds q x → Good x
  pub in_work : (x : Ref A) → Member x taken → Good x

-- What holds of the running program, with the names of the Secrets that are known: it is configured,
-- every Event was expected, and every change stems from an expected Event.
pub record IsSound {T W : Type 0} {events : WorkQueue (Ref Event)}
    {wq : WorkQueue (Ref ServerUpdateEvent)} (held : HoldsOnlyAdded events)
    (holds : HoldsOnlyAdded wq) (Expected : Event → Type 0) (known : List String)
    (s : Goroutines events.Queue wq.Queue T W) : Type 0 where
  pub configured : IsConfigured known s.process
  pub expected : AllHave held (λ e. Expected e.value) s.watcher.handler.event_queue s.handling
  pub stemming : AllHave holds (Stems Expected) s.watcher.handler.synchronizer.queue s.sending

-- What take_at gives is one item and the others.
module _ {A : Type 0} where
  pub take_at-Inserted :
      (n : ℕ) (xs : List A) (x : A) (left : List A)
      → take_at n xs ≡ some (x, left)
      → Inserted x left xs
  unfolding take_at
  take_at-Inserted n [] x left taken = absurd (ground arith)
  take_at-Inserted zero (y ∷ ys) x left taken =
      let same : y ≡ x = cc in
      let others : ys ≡ left = cc in
      subst (λ z. Inserted z left (y ∷ ys)) same
        (subst (λ l. Inserted y l (y ∷ ys)) others (first ys))
  take_at-Inserted (suc n) (y ∷ ys) x left taken = elim (Option-cases (take_at n ys)) [
    | inl missing ↦ absurd (ground arith)
    | inr ((z, rest), found) ↦
        let same : z ≡ x = ground arith in
        let others : y ∷ rest ≡ left = ground arith in
        subst (λ l. Inserted x l (y ∷ ys)) others
          (later y (take_at-Inserted n ys x rest (rw (← same) found)))
  ]

  Inserted-Member :
      (x : A) (xs ys : List A)
      → Inserted x xs ys
      → Member x ys × ((y : A) → Member y xs → Member y ys)
  Inserted-Member x xs ys (first zs) = (inl refl, λ y m. inr m)
  Inserted-Member x xs ys (later {xs = us} {ys = vs} z inserted) =
      let (here, others) = Inserted-Member x us vs inserted in
      (inr here, λ y m. elim m [ inl e ↦ inl e | inr rest ↦ inr (others y rest) ])

  pub take_at-Member :
      (n : ℕ) (xs : List A) (x : A) (left : List A)
      → take_at n xs ≡ some (x, left)
      → Member x xs × ((y : A) → Member y left → Member y xs)
  take_at-Member n xs x left taken = Inserted-Member x left xs (take_at-Inserted n xs x left taken)

-- What is on the queue after changes were added has a property, if what was there before has it, and
-- the new changes with a host.
pub Enqueued-Holds :
    {wq : WorkQueue (Ref ServerUpdateEvent)} (holds : HoldsOnlyAdded wq) (min max : ℕ)
    (Good : Ref ServerUpdateEvent → Type 0) {rs : List (Ref ServerUpdateEvent)} {q q' : wq.Queue}
    → Enqueued wq min max rs q q'
    → All (λ r. r.value.nginx_host ≢ "" → Good r) rs
    → ((r : Ref ServerUpdateEvent) → holds.Holds q r → Good r)
    → (r : Ref ServerUpdateEvent) → holds.Holds q' r
    → Good r
Enqueued-Holds holds min max Good all_added good before r there = before r there
Enqueued-Holds holds min max Good (skipped x no_host rest) (g, good) before r there =
    Enqueued-Holds holds min max Good rest good before r there
Enqueued-Holds holds min max Good (added {q} x ms host low high rest) (g, good) before r there =
    Enqueued-Holds holds min max Good rest good
      (λ y on_queue. elim (holds.after_add_after x y ms q on_queue) [
        | inl e ↦ subst Good (sym e) (g host)
        | inr old ↦ before y old
      ])
      r there

-- A list's members, as a property of all of them.
All-members : {A : Type 0} (P : A → Type 0) (xs : List A) → ((x : A) → Member x xs → P x) → All P xs
All-members P [] each = tt
All-members P (x ∷ xs) each = (each x (inl refl), All-members P xs (λ y m. each y (inr m)))

-- Fanned out, the changes of an expected Event stem from it.
pub FansOut-Stems :
    (Expected : Event → Type 0) (e : Event) (es : List ServerUpdateEvent) {hosts : List String}
    {rs : List (Ref ServerUpdateEvent)}
    → Expected e
    → Translates e e.service.ports es
    → FansOut es hosts rs
    → All (λ r. r.value.nginx_host ≢ "" → Stems Expected r) rs
FansOut-Stems Expected e es expected related fanned =
    All-FansOut (λ u. Member u es) _
      (λ host u r copy among served. record {
        event = e;
        expected = expected;
        changes = es;
        translated = related;
        change = u;
        among = among;
        host = host;
        copied = copy;
        served = served;
      })
      fanned (All-members (λ u. Member u es) es (λ u m. m))

module _ {A : Type 0} {wq : WorkQueue (Ref A)} (holds : HoldsOnlyAdded wq)
    (Good : Ref A → Type 0) where
  -- Taking an item and finishing it keep the property.
  pub AllHave-taken :
      (x : Ref A) (q q' : wq.Queue) (taken : List (Ref A))
      → wq.get q ≡ item x q'
      → AllHave holds Good q taken
      → AllHave holds Good q' (x ∷ taken)
  AllHave-taken x q q' taken got all =
      let (held, less) = holds.given x q q' got in
      record {
        waiting = λ y h. all.waiting y (less y h);
        in_work = λ y m. elim m [
          | inl e ↦ subst Good (sym e) (all.waiting x held)
          | inr before ↦ all.in_work y before
        ];
      }

  pub AllHave-left :
      (n : ℕ) (x : Ref A) (q : wq.Queue) (taken left : List (Ref A))
      → take_at n taken ≡ some (x, left)
      → AllHave holds Good q taken
      → Good x × AllHave holds Good q left
  AllHave-left n x q taken left found all =
      let (among, others) = take_at-Member n taken x left found in
      (
        all.in_work x among,
        record { waiting = all.waiting; in_work = λ y m. all.in_work y (others y m) },
      )
