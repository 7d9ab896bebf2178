-- ===== src/Application/Laws.antt =====
-- The factory of border clients, and when a border client panics.
use nginx_k8s_loadbalancer.Base.{
  String, ◌≡◌, refl, ◌↔◌, ◌⊎◌, inl, inr, Option, none, some, List, ◌∷◌, arith, eq_iff,
}
use nginx_k8s_loadbalancer.Exec.Rules.{NoPanic}
use nginx_k8s_loadbalancer.Core.{UpstreamServer, ServerUpdateEvent}
use nginx_k8s_loadbalancer.Application.{
  NginxClientInterface, AnyClient, nginx, other, BorderClient, http, stream, null,
  new_border_client, client_type_nginx_stream, client_type_nginx_http, update, delete,
}

module _ {W : Type 0} (client_type : String) where
  which_made :
      (c : NginxClientInterface W) (made : Option (BorderClient W))
      → new_border_client client_type (nginx c) ≡ (made, none)
      → ((client_type ≡ client_type_nginx_stream) × (made ≡ some (stream c)))
        ⊎ ((client_type ≡ client_type_nginx_http) × (made ≡ some (http c)))
  unfolding new_border_client
  which_made c made h = ground (
    arith,
    eq_iff client_type client_type_nginx_stream,
    eq_iff client_type client_type_nginx_http,
  )

  made_by :
      (c c' : NginxClientInterface W) (made : Option (BorderClient W))
      → c ≡ c'
      → ((client_type ≡ client_type_nginx_stream) × (made ≡ some (stream c')))
        ⊎ ((client_type ≡ client_type_nginx_http) × (made ≡ some (http c')))
      → new_border_client client_type (nginx c) ≡ (made, none)
  unfolding new_border_client
  made_by c c' made same (inl (t, e)) = rw (t, same, e)
  made_by c c' made same (inr (t, e)) = rw (t, same, e)

  never_made :
      (shown : String) (made : Option (BorderClient W))
      → ¬ (new_border_client client_type (other shown) ≡ (made, none))
  unfolding new_border_client
  never_made shown made h = ground (
    arith,
    eq_iff client_type client_type_nginx_stream,
    eq_iff client_type client_type_nginx_http,
  )

-- The factory gives a client with no error exactly for a client of the NGINX Plus API and one of the
-- two known types, and then it is the border client of that type: never nil and never the null one.
pub new_border_client_iff :
    {W : Type 0} (client_type : String) (a : AnyClient W) (made : Option (BorderClient W))
    → (new_border_client client_type a ≡ (made, none)) ↔ (
        (c : NginxClientInterface W) × (a ≡ nginx c)
        × (((client_type ≡ client_type_nginx_stream) × (made ≡ some (stream c)))
            ⊎ ((client_type ≡ client_type_nginx_http) × (made ≡ some (http c)))))
new_border_client_iff client_type (nginx c) made = (
  λ h. (c, refl, which_made client_type c made h),
  λ (c', same, which). made_by client_type c c' made (cc) which,
)
new_border_client_iff client_type (other shown) made =
    (λ h. absurd (never_made client_type shown made h), λ (c', same, which). cc)

module _ {W : Type 0} where
  pub update-NoPanic :
      (b : BorderClient W) (e : ServerUpdateEvent) (w : W) → NoPanic (update b e w).0
  unfolding update
  update-NoPanic (http c) e w = ground arith
  update-NoPanic (stream c) e w = ground arith
  update-NoPanic null e w = tt

  pub delete-NoPanic :
      (b : BorderClient W) (e : ServerUpdateEvent) (w : W) (s : UpstreamServer)
      (rest : List UpstreamServer)
      → e.upstream_servers ≡ s ∷ rest
      → NoPanic (delete b e w).0
  unfolding delete
  delete-NoPanic (http c) e w s rest h = ground arith
  delete-NoPanic (stream c) e w s rest h = ground arith
  delete-NoPanic null e w s rest h = tt
