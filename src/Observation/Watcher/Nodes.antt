-- ===== src/Observation/Watcher/Nodes.antt =====
-- Which addresses a Service's Event carries.
use nginx_k8s_loadbalancer.Base.{
  String, ◌≡◌, refl, sym, ap, subst, ◌∙◌, ◌⊎◌, inl, inr, ◌↔◌, Bool, true, false, none, List, [],
  ◌∷◌, ◌++◌, arith, ◌==◌, eq_iff, if◌then◌else◌, Member,
}
use nginx_k8s_loadbalancer.Result.{ok, replied}
use nginx_k8s_loadbalancer.GoMap.{GoMap, lookup}
use nginx_k8s_loadbalancer.Kubernetes.{NodeAddress, Node, Cluster}
use nginx_k8s_loadbalancer.Observation.Watcher.{
  control_plane_label, internal_ip, not_control_plane_node, internal_ips, worker_ips,
  retrieve_node_ips,
}

module _ {A : Type 0} (x : A) where
  Member-append : (ys zs : List A) → Member x (ys ++ zs) ↔ (Member x ys ⊎ Member x zs)
  Member-append [] zs = (inr, λ h. elim h [ inl e ↦ absurd e | inr m ↦ m ])
  Member-append (y ∷ ys) zs =
      let (apart, together) = Member-append ys zs in
      (
        λ h. elim h [
          | inl e ↦ inl (inl e)
          | inr m ↦ elim (apart m) [ inl a ↦ inl (inr a) | inr b ↦ inr b ]
        ],
        λ h. elim h [
          | inl here ↦ elim here [ inl e ↦ inl e | inr a ↦ inr (together (inl a)) ]
          | inr b ↦ inr (together (inr b))
        ],
      )

  -- A list with a member, or some members, in front of it if a test holds.
  Member-if-cons :
      (b : Bool) (y : A) (ys : List A)
      → Member x (if b then y ∷ ys else ys) ↔ (((b ≡ true) × (x ≡ y)) ⊎ Member x ys)
  Member-if-cons true y ys = (
    λ h. elim h [ inl e ↦ inl (refl, e) | inr m ↦ inr m ],
    λ h. elim h [ inl e ↦ inl e.1 | inr m ↦ inr m ],
  )
  Member-if-cons false y ys = (inr, λ h. elim h [ inl e ↦ cc (e.0) | inr m ↦ m ])

  Member-if-append :
      (b : Bool) (ys zs : List A)
      → Member x (if b then ys ++ zs else zs) ↔ (((b ≡ true) × Member x ys) ⊎ Member x zs)
  Member-if-append true ys zs =
      let (apart, together) = Member-append ys zs in
      (
        λ h. elim (apart h) [ inl m ↦ inl (refl, m) | inr m ↦ inr m ],
        λ h. together (elim h [ inl m ↦ inl m.1 | inr m ↦ inr m ]),
      )
  Member-if-append false ys zs = (inr, λ h. elim h [ inl e ↦ cc (e.0) | inr m ↦ m ])

-- An internal address of a node.
pub record IsInternalOf (ip : String) (addresses : List NodeAddress) : Type 0 where
  pub address : NodeAddress
  pub listed : Member address addresses
  pub internal : address.address_type ≡ internal_ip
  pub same : address.address ≡ ip

-- An internal address of a node that is not labelled as a control plane.
pub record IsWorkerIp (ip : String) (nodes : List Node) : Type 0 where
  pub node : Node
  pub listed : Member node nodes
  pub no_control_plane : lookup control_plane_label node.labels ≡ none
  pub address : IsInternalOf ip node.addresses

later_address :
    {ip : String} {a : NodeAddress} {addresses : List NodeAddress}
    → IsInternalOf ip addresses
    → IsInternalOf ip (a ∷ addresses)
later_address i = record {
  address = i.address;
  listed = inr i.listed;
  internal = i.internal;
  same = i.same;
}

internal_ips-IsInternalOf :
    (ip : String) (addresses : List NodeAddress)
    → Member ip (internal_ips addresses)
    → IsInternalOf ip addresses
unfolding internal_ips
internal_ips-IsInternalOf ip [] h = absurd h
internal_ips-IsInternalOf ip (a ∷ addresses) h =
    elim ((Member-if-cons ip (a.address_type == internal_ip) a.address (internal_ips addresses)).0
      h) [
        | inl (fits, e) ↦ record {
          address = a;
          listed = inl refl;
          internal = (eq_iff a.address_type internal_ip).0 fits;
          same = sym e;
        }
        | inr m ↦ later_address (internal_ips-IsInternalOf ip addresses m)
      ]

IsInternalOf-internal_ips :
    (ip : String) (addresses : List NodeAddress) (a : NodeAddress)
    → Member a addresses
    → a.address_type ≡ internal_ip
    → a.address ≡ ip
    → Member ip (internal_ips addresses)
unfolding internal_ips
IsInternalOf-internal_ips ip [] a h internal same = absurd h
IsInternalOf-internal_ips ip (b ∷ addresses) a h internal same =
    let (apart, together) =
      Member-if-cons ip (b.address_type == internal_ip) b.address (internal_ips addresses) in
    elim h [
      | inl e ↦
          let type_of : NodeAddress → String = λ n. n.address_type in
          let text_of : NodeAddress → String = λ n. n.address in
          together (
            inl (
              (eq_iff b.address_type internal_ip).1 (ap type_of (sym e) ∙ internal),
              sym same ∙ ap text_of e,
            ))
      | inr m ↦ together (inr (IsInternalOf-internal_ips ip addresses a m internal same))
    ]

not_control_plane_node_iff :
    (node : Node)
    → (not_control_plane_node node ≡ true) ↔ (lookup control_plane_label node.labels ≡ none)
unfolding not_control_plane_node
not_control_plane_node_iff node = (λ h. ground arith, λ h. ground arith)

later_node :
    {ip : String} {n : Node} {nodes : List Node} → IsWorkerIp ip nodes → IsWorkerIp ip (n ∷ nodes)
later_node i = record {
  node = i.node;
  listed = inr i.listed;
  no_control_plane = i.no_control_plane;
  address = i.address;
}

worker_ips-IsWorkerIp :
    (ip : String) (nodes : List Node) → Member ip (worker_ips nodes) → IsWorkerIp ip nodes
unfolding worker_ips
worker_ips-IsWorkerIp ip [] h = absurd h
worker_ips-IsWorkerIp ip (n ∷ nodes) h =
    elim ((Member-if-append ip (not_control_plane_node n) (internal_ips n.addresses)
        (worker_ips nodes)).0
      h) [
        | inl (fits, m) ↦ record {
          node = n;
          listed = inl refl;
          no_control_plane = (not_control_plane_node_iff n).0 fits;
          address = internal_ips-IsInternalOf ip n.addresses m;
        }
        | inr m ↦ later_node (worker_ips-IsWorkerIp ip nodes m)
      ]

IsWorkerIp-worker_ips :
    (ip : String) (nodes : List Node) (n : Node)
    → Member n nodes
    → lookup control_plane_label n.labels ≡ none
    → IsInternalOf ip n.addresses
    → Member ip (worker_ips nodes)
unfolding worker_ips
IsWorkerIp-worker_ips ip [] n h free i = absurd h
IsWorkerIp-worker_ips ip (k ∷ nodes) n h free i =
    let (apart, together) =
      Member-if-append ip (not_control_plane_node k) (internal_ips k.addresses)
        (worker_ips nodes) in
    elim h [
      | inl e ↦
          let labels_of : Node → GoMap String = λ n. n.labels in
          let free_k : lookup control_plane_label k.labels ≡ none =
            ap (λ m. lookup control_plane_label m) (ap labels_of (sym e)) ∙ free in
          together (
            inl (
              (not_control_plane_node_iff k).1 free_k,
              subst (λ n. Member ip (internal_ips n.addresses)) e
                  (IsInternalOf-internal_ips ip n.addresses i.address i.listed i.internal i.same),
            ))
      | inr m ↦ together (inr (IsWorkerIp-worker_ips ip nodes n m free i))
    ]

-- When the API server lists the nodes, retrieveNodeIps returns the internal addresses of the nodes
-- that have no control plane label: a text is among them exactly when it is the address of type
-- InternalIP of such a node.
pub retrieve_node_ips_iff :
    (cluster : Cluster) (nodes : List Node)
    → cluster.list_nodes ≡ replied nodes
    → (ips : List String) × (retrieve_node_ips cluster ≡ ok ips)
      × ((ip : String) → Member ip ips ↔ IsWorkerIp ip nodes)
unfolding retrieve_node_ips
retrieve_node_ips_iff cluster nodes listed = (
  worker_ips nodes,
  rw listed refl,
  λ ip. (
    worker_ips-IsWorkerIp ip nodes,
    λ i. IsWorkerIp-worker_ips ip nodes i.node i.listed i.no_control_plane i.address,
  ),
)
