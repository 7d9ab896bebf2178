-- ===== src/Certification/Runs.antt =====
-- Any sequence of the callbacks that the informer of the Secrets may make, against what a reader of
-- the store sees.
use nginx_k8s_loadbalancer.Base.{
  String, ◌≡◌, refl, sym, ap, fun_ext, ◌∙◌, false, none, Option, List, [], ◌∷◌, ◌==◌, if◌then◌else◌,
  Member,
}
use nginx_k8s_loadbalancer.Result.{Result, ok, ◌>>=◌, ok-injective}
use nginx_k8s_loadbalancer.GoMap.{lookup}
use nginx_k8s_loadbalancer.GoMap.Laws.{HasDistinctKeys, or_else}
use nginx_k8s_loadbalancer.Core.{SecretBytes}
use nginx_k8s_loadbalancer.Kubernetes.{Secret, Object, secret}
use nginx_k8s_loadbalancer.Certification.{
  Certificates, entry, handle_add_event, handle_update_event, handle_delete_event,
}
use nginx_k8s_loadbalancer.Certification.Known.{
  Knows, handle_add_event-Knows, handle_update_event-Knows, handle_delete_event-Knows,
}
use nginx_k8s_loadbalancer.Certification.Store.{
  entry-handle_add_event, entry-handle_update_event, entry-handle_delete_event,
}

-- A call of one of the three callbacks.
pub data Callback : Type 0 where
  added : Object → Callback
  changed : Object → Object → Callback
  removed : Object → Callback

unfoldable pub call : Callback → Certificates → Result Certificates
call (added obj) c = handle_add_event obj c
call (changed old obj) c = handle_update_event old obj c
call (removed obj) c = handle_delete_event obj c

-- The calls in order, up to the first panic.
unfoldable pub calls : List Callback → Certificates → Result Certificates
calls [] c = ok c
calls (cb ∷ cbs) c = do next ← call cb c; calls cbs next

-- The object is no Secret: the callbacks log it and drop it.
abbrev pub IsNoSecret : Object → Type 0
IsNoSecret (secret s) = ⊥
IsNoSecret _ = Unit

abbrev pub object_of : Callback → Object
object_of (added obj) = obj
object_of (changed old obj) = obj
object_of (removed obj) = obj

-- What a reader sees: the bytes of a key of a Secret, if there are any.
abbrev pub View : Type 0
View = String → String → Option SecretBytes

abbrev pub view : Certificates → View
view c name key = entry name key c

-- What a reader sees after a notice of a Secret: its own data after an addition; its data, and beside
-- it what the Secret had before, stale entries included, after a change; nothing of it after a removal.
abbrev pub Notice : Type 0
Notice = Secret → View → View

abbrev pub shows_added : Notice
shows_added s v name key = if s.name == name then lookup key s.contents else v name key

abbrev pub shows_changed : Notice
shows_changed s v name key =
    if s.name == name then or_else (lookup key s.contents) (v name key) else v name key

abbrev pub shows_removed : Notice
shows_removed s v name key = if s.name == name then none else v name key

-- The callbacks that an informer makes while it knows of these Secrets, and what a reader sees
-- after them: a Secret is changed only while it is known, and its data has each key once.
pub data Informed : List String → List Callback → (View → View) → Type 0 where
  ended : (known : List String) → Informed known [] (λ v. v)
  ignores :
      {known : List String} {cbs : List Callback} {f : View → View} (cb : Callback)
      → IsNoSecret (object_of cb)
      → Informed known cbs f
      → Informed known (cb ∷ cbs) f
  adds :
      {known : List String} {cbs : List Callback} {f : View → View} (s : Secret)
      → HasDistinctKeys s.contents
      → Informed (s.name ∷ known) cbs f
      → Informed known (added (secret s) ∷ cbs) (λ v. f (shows_added s v))
  changes :
      {known : List String} {cbs : List Callback} {f : View → View} (old : Object) (s : Secret)
      → HasDistinctKeys s.contents
      → Member s.name known
      → Informed known cbs f
      → Informed known (changed old (secret s) ∷ cbs) (λ v. f (shows_changed s v))
  removes :
      {known left : List String} {cbs : List Callback} {f : View → View} (s : Secret)
      → ((name : String) → Member name left → Member name known × ((s.name == name) ≡ false))
      → Informed left cbs f
      → Informed known (removed (secret s) ∷ cbs) (λ v. f (shows_removed s v))

-- One callback on a known or a new Secret, followed by the rest.
sees-next :
    (c c' c'' : Certificates) (cb : Callback) (cbs : List Callback) (f : View → View) (now : View)
    → call cb c ≡ ok c'
    → ((name key : String) → entry name key c' ≡ now name key)
    → calls cbs c' ≡ ok c''
    → ((name key : String) → entry name key c'' ≡ f (view c') name key)
    → (calls (cb ∷ cbs) c ≡ ok c'') × ((name key : String) → entry name key c'' ≡ f now name key)
unfolding calls
sees-next c c' c'' cb cbs f now called reads rest later =
    let same : view c' ≡ now = fun_ext (λ name. fun_ext (λ key. reads name key)) in
    (rw called rest, λ name key. later name key ∙ ap (λ (v : View). f v name key) same)

-- The callbacks log what is no Secret and drop it.
pub call-IsNoSecret :
    (cb : Callback) (c : Certificates) → IsNoSecret (object_of cb) → call cb c ≡ ok c
unfolding call handle_add_event handle_update_event handle_delete_event
call-IsNoSecret (added (secret s)) c foreign = absurd foreign
call-IsNoSecret (changed old (secret s)) c foreign = absurd foreign
call-IsNoSecret (removed (secret s)) c foreign = absurd foreign
call-IsNoSecret (added obj) c foreign = refl
call-IsNoSecret (changed old obj) c foreign = refl
call-IsNoSecret (removed obj) c foreign = refl

-- Once the map of Secrets is made, and as long as only known Secrets are changed and the data of each
-- has each key once: the callbacks, in any number and order, on Secrets or on other objects, do not
-- panic, and a reader sees what the notices, taken one after the other, leave to be seen: after an
-- addition the data of the Secret alone, after a change its data written over what it had before, with
-- the old entries of keys that it no longer has, after a removal nothing of it.
pub calls-Informed :
    (known : List String) (cbs : List Callback) (f : View → View) (c : Certificates)
    → Informed known cbs f
    → Knows known c
    → (c' : Certificates) × (calls cbs c ≡ ok c')
      × ((name key : String) → entry name key c' ≡ f (view c) name key)
unfolding call
calls-Informed known cbs f c (ended k) knows = (c, unfold calls in refl, λ name key. refl)
calls-Informed known cbs f c (ignores {cbs = left} cb foreign rest) knows =
    let (c', done, sees) = calls-Informed known left f c rest knows in
    let (ran, seen) =
      sees-next c c c' cb left f (view c) (call-IsNoSecret cb c foreign) (λ name key. refl) done
        sees in
    (c', ran, seen)
calls-Informed known cbs f c (adds {cbs = left} {f = shows} s distinct rest) knows =
    let (c1, called, next) = handle_add_event-Knows known c s knows in
    let (c2, called', reads) = entry-handle_add_event c s knows.store knows.made distinct in
    let same : c2 ≡ c1 = ok-injective (sym called' ∙ called) in
    let (c', done, sees) = calls-Informed (s.name ∷ known) left shows c1 rest next in
    let (ran, seen) =
      sees-next c c1 c' (added (secret s)) left shows (shows_added s (view c)) called
        (λ name key. ap (entry name key) (sym same) ∙ reads name key) done sees in
    (c', ran, seen)
calls-Informed known cbs f c (changes {cbs = left} {f = shows} old s distinct member rest) knows =
    let (c1, called, next) = handle_update_event-Knows known c s knows old member in
    let (found, there) = knows.has s.name member in
    let (c2, called', reads) =
      entry-handle_update_event c s knows.store knows.made old found there distinct in
    let same : c2 ≡ c1 = ok-injective (sym called' ∙ called) in
    let (c', done, sees) = calls-Informed known left shows c1 rest next in
    let (ran, seen) =
      sees-next c c1 c' (changed old (secret s)) left shows (shows_changed s (view c)) called
        (λ name key. ap (entry name key) (sym same) ∙ reads name key) done sees in
    (c', ran, seen)
calls-Informed known cbs f c (removes {left = kept} {cbs = left} {f = shows} s fewer rest) knows =
    let (c1, called, next) = handle_delete_event-Knows known c s knows kept fewer in
    let (c2, called', reads) = entry-handle_delete_event c s knows.store knows.made in
    let same : c2 ≡ c1 = ok-injective (sym called' ∙ called) in
    let (c', done, sees) = calls-Informed kept left shows c1 rest next in
    let (ran, seen) =
      sees-next c c1 c' (removed (secret s)) left shows (shows_removed s (view c)) called
        (λ name key. ap (entry name key) (sym same) ∙ reads name key) done sees in
    (c', ran, seen)
