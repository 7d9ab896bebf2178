-- ===== src/Synchronization/Random.antt =====
-- internal/synchronization/rand.go. The source of randomness is an arbitrary stream of numbers:
-- rand.Intn(n) is the remainder of the next one by n.
pub mod Total
use Prim.Native.String
use nginx_k8s_loadbalancer.Base.{
  ℕ, zero, suc, ◌+◌, ◌-◌, ◌%◌, ◌≤◌, ◌<◌, String, ◌≡◌, refl, Option, none, some, arith, leb, nat_eq,
  if◌then◌else◌,
}
use nginx_k8s_loadbalancer.Text.{◌⧺◌}
use nginx_k8s_loadbalancer.Text.Prefix.{size}
use nginx_k8s_loadbalancer.Result.{Result, ok, err, panic, or_panic}
use nginx_k8s_loadbalancer.Exec.{Exec, ◌>>=◌, ◌>>◌, pure, lift}

pub record Random : Type 0 where
  pub draw : ℕ → ℕ
  pub drawn : ℕ

-- rand.Intn(n), which panics unless n is positive
unfoldable pub intn : ℕ → Exec Random ℕ
intn n r =
    if nat_eq n 0
    then (panic "invalid argument to Intn", r)
    else (ok (r.draw r.drawn % n), record r { drawn = r.drawn + 1 })

abbrev pub charset : String
charset = "abcdefghijklmnopqrstuvwxyzABCDEFGHIJKLMNOPQRSTUVWXYZ"

abbrev pub number : String
number = "0123456789"

abbrev pub alpha_numeric : String
alpha_numeric = charset ⧺ number

-- The character of an ASCII text at an index, as a text.
unfoldable pub character : ℕ → String → Option String
character n String.[] = none
character zero (String.◌∷◌ c s) = some (String.◌∷◌ c "")
character (suc n) (String.◌∷◌ c s) = character n s

unfoldable pub random_string : ℕ → Exec Random String
unfolding intn character
random_string zero = pure ""
random_string (suc n) = do
  i ← intn (size alpha_numeric)
  c ← lift (or_panic (character i alpha_numeric) "index out of range")
  rest ← random_string n
  pure (c ⧺ rest)

-- A duration in milliseconds. The settings' numbers are never negative, so the difference is
-- positive exactly when this one is.
unfoldable pub random_milliseconds : ℕ → ℕ → Exec Random ℕ
random_milliseconds min max = do random ← intn (max - min); pure (random + min)

-- With min below max, the delay is made with no panic, from one number drawn, and lies in [min, max).
pub random_milliseconds_bounds :
    (min max : ℕ) (r : Random)
    → min < max
    → (ms : ℕ) × (random_milliseconds min max r ≡ (ok ms, record r { drawn = r.drawn + 1 }))
      × (min ≤ ms)
      × (ms < max)
unfolding random_milliseconds intn
random_milliseconds_bounds min max r h =
    (r.draw r.drawn % (max - min) + min, ground arith, omega arith, omega arith)
