-- ===== src/Deploys/Tests.antt =====
-- A namespace with a service to which no route refers.
use mathlib.Core.List.Memᴰ
use mathlib.Core.List.Memᴰ.{Memᴰ, head}
use bigip_kubernetes_gateway.Base.{
  String, Bool, true, false, ◌≡◌, refl, inl, inr, none, some, [], ◌∷◌,
}
use bigip_kubernetes_gateway.Base.Attempt.{done}
use bigip_kubernetes_gateway.Base.GoMap.{GoMap, lookup, insert, values}
use bigip_kubernetes_gateway.Base.Lists.{select}
use bigip_kubernetes_gateway.Json.{Json, text, object, members}
use bigip_kubernetes_gateway.Api.{Service}
use bigip_kubernetes_gateway.External.{External}
use bigip_kubernetes_gateway.External.Sample.{sample}
use bigip_kubernetes_gateway.External.Sample.Lawful.{sample-IsLawful}
use bigip_kubernetes_gateway.As3.{declaration_of, tenant_of}
use bigip_kubernetes_gateway.Cache.{
  SigCache, empty_cache, get_gateway_class, get_services_with_namespace,
}
use bigip_kubernetes_gateway.Cache.Attached.{
  attached_gateways, related_services, http_routes_refs_of,
}
use bigip_kubernetes_gateway.Cache.Impact.{refs_of_routes, root_map, get_root_gateways, add_all}
use bigip_kubernetes_gateway.Cache.Refer.Names.{name}
use bigip_kubernetes_gateway.Cache.Refer.Keys.{IsName}
use bigip_kubernetes_gateway.Deployer.{DeployRequest, is_tenant}
use bigip_kubernetes_gateway.Parser.{parse_class, parse_all_for_class}
use bigip_kubernetes_gateway.Parser.Services.{
  parse_services, parse_services_into, classes_services, parse_class_related_services,
}
use bigip_kubernetes_gateway.Deploys.Classes.{
  IsMade, deploy_for_event_declares, deploy_for_event_empties,
}
use bigip_kubernetes_gateway.Deploys.{
  merge_configs, parse_classes, class_configs, deploy_for_event, root_keys, backend_keys,
  backend_configs, handle_backends,
}
use bigip_kubernetes_gateway.Deploys.Namespaces
use bigip_kubernetes_gateway.Deploys.Namespaces.{handle_backends_only, handle_backends_declares}
use bigip_kubernetes_gateway.Deploys.Unrouted.{IsUnrouted, handle_backends_empties}

instance external : External
external = sample

abbrev no_ipv6 : String → Bool
no_ipv6 s = false

abbrev web : Service
web = record {
  meta = record { namespace = "ns"; name = "web"; group = ""; kind = "Service" };
  type = "ClusterIP";
  node_ports = [];
}

abbrev store : SigCache
store = record empty_cache { service = ("ns/web", web) ∷ [] }

abbrev emptied : DeployRequest
emptied = record { declaration = declaration_of (("ns", []) ∷ []) }

no_backends : handle_backends store no_ipv6 [] "ns" ≡ done (some emptied)
unfolding external handle_backends get_services_with_namespace values select backend_keys
    backend_configs root_keys get_root_gateways root_map refs_of_routes add_all http_routes_refs_of
no_backends = refl

named : (svc : Service) → Memᴰ svc (values store.service) → IsName svc.name
unfolding values
named svc i = elim (Memᴰ.cases_cons i) [
  | inl e ↦ rw e (name refl)
  | inr j ↦ absurd (Memᴰ.not-nil j)
]

only_example : lookup "other" emptied.declaration ≡ none
unfolding external
only_example =
    handle_backends_only sample-IsLawful store no_ipv6 [] "ns" (name refl) named emptied "other"
      no_backends refl refl refl

declares_example :
    (folders : GoMap (GoMap Json)) × Namespaces.IsMade store no_ipv6 [] "ns" folders
    × (lookup "ns" emptied.declaration ≡ some (object (members (tenant_of folders))))
    × (is_tenant (object (members (tenant_of folders))) ≡ true)
unfolding external
declares_example =
    handle_backends_declares sample-IsLawful store no_ipv6 [] "ns" (name refl) named emptied
      no_backends

abbrev class_request : DeployRequest
class_request = record { declaration = declaration_of (("bigip", []) ∷ []) }

no_class : deploy_for_event store no_ipv6 [] ("bigip" ∷ []) ≡ done (some class_request)
unfolding deploy_for_event class_configs parse_classes parse_all_for_class parse_class
    get_gateway_class lookup insert parse_class_related_services classes_services related_services
    parse_services parse_services_into merge_configs attached_gateways
no_class = refl

class_declares_example :
    (folders : GoMap (GoMap Json)) × IsMade store no_ipv6 [] ("bigip" ∷ []) "bigip" folders
    × (lookup "bigip" class_request.declaration ≡ some (object (members (tenant_of folders))))
    × (is_tenant (object (members (tenant_of folders))) ≡ true)
class_declares_example =
    deploy_for_event_declares store no_ipv6 [] ("bigip" ∷ []) "bigip" class_request (head refl)
      no_class

abbrev empty_tenant : Json
empty_tenant = object (members (("class", text "Tenant") ∷ []))

no_gateways : attached_gateways (get_gateway_class "bigip" store) store ≡ []
unfolding get_gateway_class lookup attached_gateways
no_gateways = refl

no_pools : parse_class_related_services no_ipv6 [] store ("bigip" ∷ []) ≡ done []
unfolding parse_class_related_services classes_services related_services parse_services
    parse_services_into get_gateway_class lookup attached_gateways
no_pools = refl

class_empties_example : lookup "bigip" class_request.declaration ≡ some empty_tenant
unfolding lookup
class_empties_example =
    deploy_for_event_empties store no_ipv6 [] ("bigip" ∷ []) "bigip" class_request [] (head refl)
      no_gateways no_pools refl no_class

web-IsUnrouted : IsUnrouted store no_ipv6 [] "ns" web
unfolding external get_root_gateways root_map refs_of_routes add_all http_routes_refs_of select
    values
web-IsUnrouted = ([], refl, λ gw j. absurd (Memᴰ.not-nil j))

unrouted :
    (svc : Service)
    → Memᴰ svc (get_services_with_namespace "ns" store)
    → IsUnrouted store no_ipv6 [] "ns" svc
unfolding get_services_with_namespace values select
unrouted svc i = elim (Memᴰ.cases_cons i) [
  | inl e ↦ rw e web-IsUnrouted
  | inr j ↦ absurd (Memᴰ.not-nil j)
]

backends_empty_example :
    (r : DeployRequest) × (handle_backends store no_ipv6 [] "ns" ≡ done (some r))
    × (lookup "ns" r.declaration ≡ some empty_tenant)
backends_empty_example = handle_backends_empties store no_ipv6 [] "ns" unrouted
