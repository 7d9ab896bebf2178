-- ===== src/Synchronization/World.antt =====
-- What the synchronizer's methods change: the queue, the randomness, the shared transports, the next
-- free address, and all that lies outside the program. The settings are read and not written here.
use nginx_k8s_loadbalancer.Base.{ℕ, String}
use nginx_k8s_loadbalancer.Result.{Result, Reply}
use nginx_k8s_loadbalancer.Exec.{Exec}
use nginx_k8s_loadbalancer.Communication.{Transports, HttpClient}
use nginx_k8s_loadbalancer.Application.{AnyClient}
use nginx_k8s_loadbalancer.Synchronization.Random.{Random}

pub record World (Q T W : Type 0) : Type 0 where
  pub queue : Q
  pub random : Random
  pub next : ℕ
  pub transports : Transports T
  pub outside : W

-- nginxClient.NewNginxClient, over the configuration of the transport and the world outside.
pub record NginxPlus (T W : Type 0) : Type 0 where
  pub new_nginx_client : String → HttpClient → Transports T → W → Reply (AnyClient W) × W

module _ {Q T W A : Type 0} where
  abbrev pub put_random : World Q T W → Result A × Random → Result A × World Q T W
  put_random w (a, r) = (a, record w { random = r })

  -- A method of one part, as a method of the whole.
  abbrev pub on_random : Exec Random A → Exec (World Q T W) A
  on_random m w = put_random w (m w.random)

  abbrev pub put_transports : World Q T W → Result A × Transports T → Result A × World Q T W
  put_transports w (a, t) = (a, record w { transports = t })

  abbrev pub on_transports : Exec (Transports T) A → Exec (World Q T W) A
  on_transports m w = put_transports w (m w.transports)

  abbrev pub put_outside : World Q T W → Result A × W → Result A × World Q T W
  put_outside w (a, o) = (a, record w { outside = o })

  abbrev pub on_outside : Exec W A → Exec (World Q T W) A
  on_outside m w = put_outside w (m w.outside)
