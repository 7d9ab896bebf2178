-- ===== src/Synchronization/Random/Total.antt =====
-- A random text has the length that is asked for, and making it does not panic.
use nginx_k8s_loadbalancer.Base.{ℕ, zero, suc, ◌+◌, ◌%◌, ◌<◌, String, ◌≡◌, refl, some, arith}
use nginx_k8s_loadbalancer.Text.{◌⧺◌}
use nginx_k8s_loadbalancer.Text.Prefix.{size}
use nginx_k8s_loadbalancer.Result.{ok}
use nginx_k8s_loadbalancer.Synchronization.Random.{Random, character, alpha_numeric, random_string}

character-some :
    (i : ℕ) (s : String) → i < size s → (c : String) × (character i s ≡ some c) × (size c ≡ 1)
unfolding character
character-some i String.[] h = elim h [ ]
character-some zero (String.◌∷◌ c s) h = (String.◌∷◌ c "", refl, refl)
character-some (suc i) (String.◌∷◌ c s) h = character-some i s (omega arith)

below_62 : (n : ℕ) → n % 62 < 62
below_62 n = omega arith

-- Making a random text does not panic.
pub random_string_total :
    (n : ℕ) (r : Random) → (s : String) × (r' : Random) × (random_string n r ≡ (ok s, r'))
unfolding random_string
random_string_total zero r = ("", r, refl)
random_string_total (suc n) r =
    let (c, found, one) =
      character-some (r.draw r.drawn % 62) alpha_numeric (below_62 (r.draw r.drawn)) in
    let (s, r', made) = random_string_total n (record r { drawn = r.drawn + 1 }) in
    (c ⧺ s, r', rw found (rw made refl))
