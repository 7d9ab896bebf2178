-- ===== src/Exec/Rules.antt =====
-- Two facts about functions that change a state, with a rule for each way to build one: that it does
-- not panic, whatever the state, and that it leaves one part of the state alone.
use nginx_k8s_loadbalancer.Base.{◌⊎◌, inl, inr, ◌≡◌, refl, ◌∙◌, arith}
use nginx_k8s_loadbalancer.Result.{
  Error, Result, ok, err, panic, wrapped, Reply, replied, refused, answered,
}
use nginx_k8s_loadbalancer.Exec.{Exec, continue, ◌>>=◌}

abbrev pub NoPanic {ℓ} : {A : Type ℓ} → Result A → Type 0
NoPanic (panic p) = ⊥
NoPanic _ = Unit

pub NoPanic-cases {ℓ} :
    {A : Type ℓ} (r : Result A) → NoPanic r → ((a : A) × (r ≡ ok a)) ⊎ ((e : Error) × (r ≡ err e))
NoPanic-cases (ok a) h = inl (a, refl)
NoPanic-cases (err e) h = inr (e, refl)
NoPanic-cases (panic p) h = absurd h

pub answered-NoPanic : {A : Type 0} (f : Error → Error) (r : Reply A) → NoPanic (answered f r)
answered-NoPanic f (replied a) = tt
answered-NoPanic f (refused e) = tt

pub wrapped-NoPanic {ℓ} :
    {A : Type ℓ} (f : Error → Error) (r : Result A) → NoPanic r → NoPanic (wrapped f r)
wrapped-NoPanic f (ok a) h = tt
wrapped-NoPanic f (err e) h = tt
wrapped-NoPanic f (panic p) h = h

module _ {S A B : Type 0} where
  continue-NoPanic :
      (r : Result A) (f : A → Exec S B) (s : S)
      → NoPanic r
      → ((a : A) → r ≡ ok a → NoPanic (f a s).0)
      → NoPanic (continue r f s).0
  continue-NoPanic (ok a) f s h k = k a refl
  continue-NoPanic (err e) f s h k = tt
  continue-NoPanic (panic p) f s h k = h

  pub bind-NoPanic :
      (m : Exec S A) (f : A → Exec S B) (s : S)
      → NoPanic (m s).0
      → ((a : A) → (m s).0 ≡ ok a → NoPanic (f a (m s).1).0)
      → NoPanic ((m >>= f) s).0
  bind-NoPanic m f s h k = continue-NoPanic (m s).0 f (m s).1 h k

  continue_frame {ℓ} :
      {P : Type ℓ} (part : S → P) (r : Result A) (f : A → Exec S B) (s : S)
      → ((a : A) → part (f a s).1 ≡ part s)
      → part (continue r f s).1 ≡ part s
  continue_frame part (ok a) f s k = k a
  continue_frame part (err e) f s k = refl
  continue_frame part (panic p) f s k = refl

  pub bind_frame {ℓ} :
      {P : Type ℓ} (part : S → P) (m : Exec S A) (f : A → Exec S B) (s : S)
      → part (m s).1 ≡ part s
      → ((a : A) → part (f a (m s).1).1 ≡ part (m s).1)
      → part ((m >>= f) s).1 ≡ part s
  bind_frame part m f s h k = continue_frame part (m s).0 f (m s).1 k ∙ h

  continue-eq-ok :
      (r : Result A) (f : A → Exec S B) (s : S) {b : B}
      → (continue r f s).0 ≡ ok b
      → (a : A) × (r ≡ ok a) × ((f a s).0 ≡ ok b)
  continue-eq-ok (ok a) f s h = (a, refl, h)
  continue-eq-ok (err e) f s h = absurd (ground arith)
  continue-eq-ok (panic p) f s h = absurd (ground arith)

  -- A chain that succeeds went through a first step that did.
  pub bind-eq-ok :
      (m : Exec S A) (f : A → Exec S B) (s : S) {b : B}
      → ((m >>= f) s).0 ≡ ok b
      → (a : A) × ((m s).0 ≡ ok a) × ((f a (m s).1).0 ≡ ok b)
  bind-eq-ok m f s h = continue-eq-ok (m s).0 f (m s).1 h
