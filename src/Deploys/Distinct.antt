-- ===== src/Deploys/Distinct.antt =====
-- A request declares each tenant once.
use bigip_kubernetes_gateway.Base.{String, Bool, ◌≡◌, refl, sym, ap, Option, some, List, [], ◌∷◌}
use bigip_kubernetes_gateway.Base.Attempt.{Attempt, done, of_outcome, >>=-eq-done}
use bigip_kubernetes_gateway.Base.GoMap.{HasDistinctKeys}
use bigip_kubernetes_gateway.External.{External}
use bigip_kubernetes_gateway.As3.{declaration_of}
use bigip_kubernetes_gateway.As3.Declaration.{declaration_of-HasDistinctKeys}
use bigip_kubernetes_gateway.K8s.Nodes.{NodeCache}
use bigip_kubernetes_gateway.Cache.{SigCache, get_services_with_namespace}
use bigip_kubernetes_gateway.Parser.Services.{Partitions}
use bigip_kubernetes_gateway.Deployer.{DeployRequest}
use bigip_kubernetes_gateway.Deploys.{
  deploy_for_event, handle_backends, class_configs, backend_keys, backend_configs,
}

-- The one request that is made of some partitions.
pub declared :
    (cfgs : Partitions) (r : DeployRequest)
    → ◌≡◌ {A = Attempt (Option DeployRequest)}
        (done (some (record { declaration = declaration_of cfgs })))
        (done (some r))
    → r.declaration ≡ declaration_of cfgs
declared cfgs r e =
    let same : record { declaration = declaration_of cfgs } ≡ r = cc in
    sym (ap (λ q. q.declaration) same)

-- What a function that makes requests is asked for.
abbrev pub Declares : Attempt (Option DeployRequest) → Type 0
Declares m = (r : DeployRequest) → m ≡ done (some r) → HasDistinctKeys r.declaration

of_request :
    {r : DeployRequest} (cfgs : Partitions) (m : Attempt (Option DeployRequest))
    → m ≡ done (some (record { declaration = declaration_of cfgs }))
    → m ≡ done (some r)
    → HasDistinctKeys r.declaration
of_request {r} cfgs m e f =
    let same : record { declaration = declaration_of cfgs } ≡ r = cc (e, f) in
    rw (← same) (declaration_of-HasDistinctKeys cfgs)

module _ ⦃ext : External⦄ (c : SigCache) (is_ipv6 : String → Bool) (nodes : NodeCache) where
  pub deploy_for_event-Declares :
      (classes : List String) → Declares (deploy_for_event c is_ipv6 nodes classes)
  unfolding deploy_for_event
  deploy_for_event-Declares [] r e = cc e
  deploy_for_event-Declares (n ∷ ns) r e =
      let (cfgs, _, f) = >>=-eq-done (class_configs c is_ipv6 nodes (n ∷ ns)) _ e in
      of_request cfgs _ refl f

  pub handle_backends-Declares : (ns : String) → Declares (handle_backends c is_ipv6 nodes ns)
  unfolding handle_backends
  handle_backends-Declares ns r e =
      let (kn, _, f) =
        >>=-eq-done (of_outcome (backend_keys c (get_services_with_namespace ns c))) _ e in
      let (cfgs, _, g) = >>=-eq-done (backend_configs c is_ipv6 nodes ns kn) _ f in
      of_request cfgs _ refl g
