-- ===== src/Communication/Requests.antt =====
-- The headers of the requests that reach the API.
use nginx_k8s_loadbalancer.Base.{
  ℕ, String, ◌≡◌, refl, some, [], ◌∷◌, List, arith, ◌==◌, if◌then◌else◌,
}
use nginx_k8s_loadbalancer.Text.{split_two}
use nginx_k8s_loadbalancer.GoMap.{lookup, insert, copy}
use nginx_k8s_loadbalancer.GoMap.Laws.{HasDistinctKeys, lookup-insert, lookup-copy}
use nginx_k8s_loadbalancer.Communication.{Request, new_request, new_headers, new_round_tripper}

abbrev pub json : List String
json = " application/json" ∷ []

copied :
    {R : Type 0} (req : Request R) (key : String)
    → HasDistinctKeys req.header
    → lookup key (copy req.header []) ≡ lookup key req.header
unfolding lookup
copied req key distinct = ground (arith, lookup-copy req.header [] key distinct)

-- A request whose map of headers has each key once goes out, from a client with the headers of
-- NewHeaders, with exactly one value for Content-Type and for Accept, both " application/json"; its
-- other headers, and the rest of the request, are as they were.
pub new_request-header :
    {R : Type 0} (transport : ℕ) (req : Request R) (key : String)
    → HasDistinctKeys req.header
    → (lookup key (new_request (new_round_tripper new_headers transport) req).header ≡ (
        if "Accept" == key
        then some json
        else if "Content-Type" == key
        then some json
        else lookup key req.header))
      × ((new_request (new_round_tripper new_headers transport) req).rest ≡ req.rest)
unfolding new_request new_round_tripper new_headers split_two
new_request-header transport req key distinct =
    let plain = copy req.header [] in
    let first = insert "Content-Type" json plain in
    (
      ground (
        arith,
        lookup-insert "Accept" key json first,
        lookup-insert "Content-Type" key json plain,
        copied req key distinct,
      ),
      refl,
    )
