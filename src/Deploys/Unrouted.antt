-- ===== src/Deploys/Unrouted.antt =====
-- HandleBackends of a namespace to which no gateway leads.
use mathlib.Core.List.Memᴰ.{Memᴰ, head, tail}
use bigip_kubernetes_gateway.Base.{
  String, Bool, ◌≡◌, refl, ap, ◌∙◌, none, some, List, [], ◌∷◌, returns,
}
use bigip_kubernetes_gateway.Base.Attempt.{done, of_outcome}
use bigip_kubernetes_gateway.Base.GoMap.{lookup}
use bigip_kubernetes_gateway.Json.{text, object, members}
use bigip_kubernetes_gateway.Api.{Gateway, Service}
use bigip_kubernetes_gateway.External.{External}
use bigip_kubernetes_gateway.As3.{declaration_of}
use bigip_kubernetes_gateway.As3.Declaration.{lookup-declaration_of_one, tenant_of-nil}
use bigip_kubernetes_gateway.K8s.Nodes.{NodeCache}
use bigip_kubernetes_gateway.Cache.{SigCache, get_gateway_class, get_services_with_namespace}
use bigip_kubernetes_gateway.Cache.Impact.{get_root_gateways}
use bigip_kubernetes_gateway.Deployer.{DeployRequest}
use bigip_kubernetes_gateway.Deploys.{root_keys, backend_keys, backend_configs, handle_backends}

module _ ⦃ext : External⦄ (c : SigCache) (is_ipv6 : String → Bool) (nodes : NodeCache)
    (ns : String) where
  -- A service to which no gateway of a cached class leads.
  abbrev pub IsUnrouted : Service → Type 0
  IsUnrouted svc =
      (gws : List Gateway) × (get_root_gateways (svc ∷ []) c ≡ returns gws)
      × ((gw : Gateway) → Memᴰ gw gws → get_gateway_class gw.class_name c ≡ none)

  root_keys-nil :
      (svc : Service) (gws : List Gateway)
      → ((gw : Gateway) → Memᴰ gw gws → get_gateway_class gw.class_name c ≡ none)
      → root_keys c svc gws ≡ []
  unfolding root_keys
  root_keys-nil svc [] h = refl
  root_keys-nil svc (gw ∷ gws) h =
      rw (h gw (head refl), root_keys) (root_keys-nil svc gws (λ g i. h g (tail i)))

  backend_keys-nil :
      (svcs : List Service)
      → ((svc : Service) → Memᴰ svc svcs → IsUnrouted svc)
      → backend_keys c svcs ≡ returns []
  unfolding backend_keys
  backend_keys-nil [] h = refl
  backend_keys-nil (svc ∷ svcs) h =
      let (gws, e, uncached) = h svc (head refl) in
      let later = backend_keys-nil svcs (λ s i. h s (tail i)) in
      rw (e, backend_keys, later, root_keys-nil svc gws uncached) refl

  -- If no gateway of a cached class leads to a service of the namespace, HandleBackends puts a request
  -- into the queue in which the namespace is a tenant without folders.
  pub handle_backends_empties :
      ((svc : Service) → Memᴰ svc (get_services_with_namespace ns c) → IsUnrouted svc)
      → (r : DeployRequest) × (handle_backends c is_ipv6 nodes ns ≡ done (some r))
        × (lookup ns r.declaration ≡ some (object (members (("class", text "Tenant") ∷ []))))
  unfolding handle_backends backend_configs
  handle_backends_empties h = (
    record { declaration = declaration_of ((ns, []) ∷ []) },
    rw (backend_keys-nil _ h, of_outcome) refl,
    lookup-declaration_of_one ns [] ∙ ap (λ t. some (object (members t))) tenant_of-nil,
  )
