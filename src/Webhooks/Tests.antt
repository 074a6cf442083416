-- ===== src/Webhooks/Tests.antt =====
-- A route to a service of another namespace, under a reference grant.
use bigip_kubernetes_gateway.Base.{
  ◌≡◌, refl, ◌↔◌, ◌⊎◌, true, Option, none, some, [], ◌∷◌, ◌==◌, if◌then◌else◌,
}
use bigip_kubernetes_gateway.Base.Lists.{All}
use bigip_kubernetes_gateway.Api.{
  BackendRef, HttpRoute, Service, ReferenceGrant, gateway_group, core_group,
}
use bigip_kubernetes_gateway.External.{External}
use bigip_kubernetes_gateway.External.Sample.{sample}
use bigip_kubernetes_gateway.Cache.Refer.{grant_from, grant_to}
use bigip_kubernetes_gateway.Webhooks.Manager.{Manager, ObjectKey, listed}
use bigip_kubernetes_gateway.Webhooks.Validate.{validate_http_route_backend_refs}
use bigip_kubernetes_gateway.Webhooks.Validate.Backends.{
  BackendOk, ExtensionOk, validate_backends_iff,
}
use bigip_kubernetes_gateway.Webhooks.Validate.{validate_http_route_parent_refs}
use bigip_kubernetes_gateway.Webhooks.Validate.Parents.{ParentOk, validate_parents_iff}
use bigip_kubernetes_gateway.Webhooks.Gateways.{validate_listeners_tls_certificate_refs}
use bigip_kubernetes_gateway.Webhooks.Gateways.Certificates.{ListenerOk, validate_certificates_iff}
use bigip_kubernetes_gateway.Api.{Gateway, Listener, ParentRef}
use bigip_kubernetes_gateway.Webhooks.Validate.Grants.{can_refer}
use bigip_kubernetes_gateway.Webhooks.Validate.Grants.Laws.{SomeGrant, may_refer_iff}

instance external : External
external = sample

abbrev web : Service
web = record {
  meta = record { namespace = "back"; name = "web"; group = core_group; kind = "Service" };
  type = "ClusterIP";
  node_ports = [];
}

abbrev backend : BackendRef
backend = record { group = none; kind = none; namespace = some "back"; name = "web"; weight = none }

abbrev route : HttpRoute
route = record {
  meta = record { namespace = "front"; name = "route"; group = gateway_group; kind = "HTTPRoute" };
  hostnames = [];
  parent_refs = [];
  rules = record { matches = []; filters = []; backend_refs = backend ∷ [] } ∷ [];
}

-- The grant stands in a namespace that is neither the source's nor the target's.
abbrev elsewhere : ReferenceGrant
elsewhere = record {
  namespace = "elsewhere";
  name = "grant";
  from = record { group = gateway_group; kind = "HTTPRoute"; namespace = "front" } ∷ [];
  to = record { group = core_group; kind = "Service"; name = some "web" } ∷ [];
}

-- A gateway whose listener terminates TLS and takes no routes.
abbrev listener : Listener
listener = record {
  name = "web";
  hostname = none;
  port = 443;
  protocol = "HTTPS";
  tls = some (record {
    mode = none;
    certificate_refs = record { group = none; kind = none; name = "cert"; namespace = none } ∷ [];
  });
  allowed_routes = none;
}

abbrev gateway : Gateway
gateway = record {
  meta = record { namespace = "front"; name = "edge"; group = gateway_group; kind = "Gateway" };
  class_name = "bigip";
  listeners = listener ∷ [];
  addresses = [];
}

abbrev find_web : ObjectKey → Option Service
find_web key = if key.name == "web" then some web else none

abbrev manager : Manager
manager = record {
  get_gateway_class = λ k. none;
  get_gateway = λ k. some gateway;
  get_namespace = λ k. none;
  get_service = find_web;
  get_secret = λ k. none;
  list_reference_grants = listed (elsewhere ∷ []);
  list_gateways = listed [];
  list_http_routes = listed [];
  list_namespaces = listed [];
}

may_refer_example : (can_refer (elsewhere ∷ []) route.meta web.meta ≡ true) ↔ (
    (route.namespace ≡ web.namespace)
    ⊎ ((route.group ≡ gateway_group)
        × (SomeGrant (elsewhere ∷ []) (grant_from route.meta) (grant_to web.meta (some "web"))
            ⊎ SomeGrant (elsewhere ∷ []) (grant_from route.meta) (grant_to web.meta none))))
may_refer_example = may_refer_iff (elsewhere ∷ []) route.meta web.meta

validate_backends_example : (validate_http_route_backend_refs manager route ≡ none) ↔ (
    All (λ rl. All (BackendOk manager (elsewhere ∷ []) route) rl.backend_refs) route.rules
    × All (λ rl. All (ExtensionOk manager (elsewhere ∷ []) route) rl.filters) route.rules)
validate_backends_example = validate_backends_iff manager (elsewhere ∷ []) route refl

abbrev parent : ParentRef
parent = record {
  group = none;
  kind = none;
  namespace = none;
  name = "edge";
  section_name = some "web";
}

abbrev attached : HttpRoute
attached = record route { parent_refs = parent ∷ [] }

validate_parents_example :
    (validate_http_route_parent_refs manager attached ≡ none)
    ↔ All (ParentOk manager attached) attached.parent_refs
validate_parents_example = validate_parents_iff manager attached

validate_certificates_example :
    (validate_listeners_tls_certificate_refs manager gateway ≡ none)
    ↔ All (ListenerOk manager (elsewhere ∷ []) gateway) gateway.listeners
validate_certificates_example = validate_certificates_iff manager (elsewhere ∷ []) gateway refl
