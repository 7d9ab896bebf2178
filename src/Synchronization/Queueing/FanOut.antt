-- ===== src/Synchronization/Queueing/FanOut.antt =====
-- What fanning out gives: a copy of every change for every host, each a new pointer.
use nginx_k8s_loadbalancer.Base.{
  ℕ, suc, ◌+◌, String, ◌≡◌, refl, subst, ◌∙◌, List, [], ◌∷◌, ◌++◌, arith, length, length-append,
  All, All-append,
}
use nginx_k8s_loadbalancer.Result.{ok}
use nginx_k8s_loadbalancer.Core.{ServerUpdateEvent, with_id_and_host}
use nginx_k8s_loadbalancer.Configuration.Settings.{Settings}
use nginx_k8s_loadbalancer.WorkQueue.{Ref}
use nginx_k8s_loadbalancer.Synchronization.Random.Total.{random_string_total}
use nginx_k8s_loadbalancer.Synchronization.World.{World}
use nginx_k8s_loadbalancer.Synchronization.Queueing.{
  fan_out_to_host, fan_out_from, fan_out_event_to_hosts, event_id,
}

-- The same change, for a host and with an identifier.
abbrev pub IsCopy : String → ServerUpdateEvent → Ref ServerUpdateEvent → Type 0
IsCopy host e r = r.value ≡ record e { id = r.value.id; nginx_host = host }

-- Copies of the changes, in their order, for one host.
abbrev pub Copies : String → List ServerUpdateEvent → List (Ref ServerUpdateEvent) → Type 0
Copies host [] [] = Unit
Copies host (e ∷ es) (r ∷ rs) = IsCopy host e r × Copies host es rs
Copies host _ _ = ⊥

-- For each host, in order, copies of all changes.
pub data FansOut (es : List ServerUpdateEvent)
    : List String → List (Ref ServerUpdateEvent) → Type 0 where
  no_host : FansOut es [] []
  each_host :
      {hosts : List String} {rest : List (Ref ServerUpdateEvent)} (host : String)
      (here : List (Ref ServerUpdateEvent))
      → Copies host es here
      → FansOut es hosts rest
      → FansOut es (host ∷ hosts) (here ++ rest)

-- What holds of all changes, in a form that copies inherit, holds of all that is fanned out.
module _ {ℓ κ} (Change : ServerUpdateEvent → Type ℓ) (Queued : Ref ServerUpdateEvent → Type κ)
    (inherits : (host : String) (e : ServerUpdateEvent) (r : Ref ServerUpdateEvent)
      → IsCopy host e r
      → Change e
      → Queued r) where
  All-Copies :
      (host : String) (es : List ServerUpdateEvent) (rs : List (Ref ServerUpdateEvent))
      → Copies host es rs
      → All Change es
      → All Queued rs
  All-Copies host [] [] copies all = tt
  All-Copies host [] (r ∷ rs) copies all = absurd copies
  All-Copies host (e ∷ es) [] copies all = absurd copies
  All-Copies host (e ∷ es) (r ∷ rs) (copy, copies) (holds, all) =
      (inherits host e r copy holds, All-Copies host es rs copies all)

  pub All-FansOut :
      {es : List ServerUpdateEvent} {hosts : List String} {rs : List (Ref ServerUpdateEvent)}
      → FansOut es hosts rs
      → All Change es
      → All Queued rs
  All-FansOut no_host all = tt
  All-FansOut {es} (each_host {rest} host here copies out) all =
      All-append Queued here rest (All-Copies host es here copies all) (All-FansOut out all)

-- The addresses count up from n: they are all different, and none was used before.
abbrev pub Numbered : ℕ → List (Ref ServerUpdateEvent) → Type 0
Numbered n [] = Unit
Numbered n (r ∷ rs) = (r.address ≡ n) × Numbered (suc n) rs

Numbered-append :
    (n : ℕ) (xs ys : List (Ref ServerUpdateEvent))
    → Numbered n xs
    → Numbered (n + length xs) ys
    → Numbered n (xs ++ ys)
Numbered-append n [] ys h k = subst (λ m. Numbered m ys) (omega arith) k
Numbered-append n (x ∷ xs) ys (h, hs) k =
    (h, Numbered-append (suc n) xs ys hs (subst (λ m. Numbered m ys) (omega arith) k))

-- What a part of the fan-out did to the world.
pub record Made {Q T W : Type 0} (w w' : World Q T W) (rs : List (Ref ServerUpdateEvent))
    : Type 0 where
  pub numbered : Numbered w.next rs
  pub used : w'.next ≡ w.next + length rs
  pub queue : w'.queue ≡ w.queue
  pub transports : w'.transports ≡ w.transports
  pub outside : w'.outside ≡ w.outside

module _ {Q T W : Type 0} where
  to_host-Copies :
      (hidx : ℕ) (host : String) (eidx : ℕ) (es : List ServerUpdateEvent) (w : World Q T W)
      → (rs : List (Ref ServerUpdateEvent)) × (w' : World Q T W) × (fan_out_to_host hidx host eidx
            es w
          ≡ (ok rs, w'))
        × Copies host es rs
        × Made w w' rs
  unfolding fan_out_to_host with_id_and_host
  to_host-Copies hidx host eidx [] w = ([], w, refl, tt, ground arith)
  to_host-Copies hidx host eidx (e ∷ es) w =
      let (s, random, made) = random_string_total 12 w.random in
      let w1 : World Q T W = record w { random = random; next = w.next + 1 } in
      let (rs, w', later, copies, m) = to_host-Copies hidx host (suc eidx) es w1 in
      let r : Ref ServerUpdateEvent = record {
        address = w.next;
        value = record e { id = event_id hidx eidx s e.upstream_name host; nginx_host = host };
      } in
      (
        r ∷ rs,
        w',
        rw made (rw later refl),
        (refl, copies),
        record {
          numbered = (refl, subst (λ m. Numbered m rs) (omega arith) m.numbered);
          used = m.used ∙ omega arith;
          queue = m.queue;
          transports = m.transports;
          outside = m.outside;
        },
      )

  Made-append :
      {w w1 w2 : World Q T W} (rs rs' : List (Ref ServerUpdateEvent))
      → Made w w1 rs
      → Made w1 w2 rs'
      → Made w w2 (rs ++ rs')
  Made-append {w} rs rs' m m' = record {
    numbered =
        Numbered-append w.next rs rs' m.numbered (subst (λ n. Numbered n rs') m.used m'.numbered);
    used = let h = m.used in let h' = m'.used in let k = length-append rs rs' in omega arith;
    queue = m'.queue ∙ m.queue;
    transports = m'.transports ∙ m.transports;
    outside = m'.outside ∙ m.outside;
  }

  fan_out_from-FansOut :
      (hidx : ℕ) (hosts : List String) (es : List ServerUpdateEvent) (w : World Q T W)
      → (rs : List (Ref ServerUpdateEvent)) × (w' : World Q T W) × (fan_out_from hidx hosts es w
          ≡ (ok rs, w'))
        × FansOut es hosts rs
        × Made w w' rs
  unfolding fan_out_from
  fan_out_from-FansOut hidx [] es w = ([], w, refl, no_host, ground arith)
  fan_out_from-FansOut hidx (host ∷ hosts) es w =
      let (here, w1, made, copies, m) = to_host-Copies hidx host 0 es w in
      let (rest, w2, made', out, m') = fan_out_from-FansOut (suc hidx) hosts es w1 in
      (
        here ++ rest,
        w2,
        rw made (rw made' refl),
        each_host host here copies out,
        Made-append here rest m m',
      )

-- fanOutEventToHosts returns, for all settings and changes: for every configured host, in order, one
-- copy of every change, in order, that differs only in its identifier and its host; each copy is a
-- new object; and the queue, the transports and the world outside are as they were.
pub fan_out_event_to_hosts-FansOut :
    {Q T W : Type 0} (settings : Settings) (es : List ServerUpdateEvent) (w : World Q T W)
    → (rs : List (Ref ServerUpdateEvent)) × (w' : World Q T W) × (fan_out_event_to_hosts settings es
          w
        ≡ (ok rs, w'))
      × FansOut es settings.nginx_plus_hosts rs
      × Made w w' rs
unfolding fan_out_event_to_hosts
fan_out_event_to_hosts-FansOut settings es w = fan_out_from-FansOut 0 settings.nginx_plus_hosts es w
