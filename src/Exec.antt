-- ===== src/Exec.antt =====
-- Functions that also change a state. What was written before an error or a panic stays written, so
-- the state comes back beside those too.
pub mod Rules
use nginx_k8s_loadbalancer.Result.{Error, Result, ok, err, panic, wrapped}

abbrev pub Exec : Type 0 → Type 0 → Type 0
Exec S A = S → Result A × S

abbrev pub continue : {S A B : Type 0} → Result A → (A → Exec S B) → Exec S B
continue (ok a) f s = f a s
continue (err e) f s = (err e, s)
continue (panic p) f s = (panic p, s)

infixl 5 ◌>>=◌ ◌>>◌
abbrev pub ◌>>=◌ : {S A B : Type 0} → Exec S A → (A → Exec S B) → Exec S B
◌>>=◌ m f s = let (r, s') = m s in continue r f s'

abbrev pub ◌>>◌ : {S A B : Type 0} → Exec S A → Exec S B → Exec S B
m >> n = m >>= λ _. n

abbrev pub pure : {S A : Type 0} → A → Exec S A
pure a s = (ok a, s)

abbrev pub lift : {S A : Type 0} → Result A → Exec S A
lift r s = (r, s)

abbrev pub wrap : {S A : Type 0} → (Error → Error) → Exec S A → Exec S A
wrap f m s = let (r, s') = m s in (wrapped f r, s')
