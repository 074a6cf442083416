-- ===== src/Deploys/MirrorTests.antt =====
-- A gateway with a route that mirrors requests.
use mathlib.Core.List.Memᴰ.{head}
use bigip_kubernetes_gateway.Base.{String, Bool, false, ◌≢◌, refl, none, some, [], ◌∷◌}
use bigip_kubernetes_gateway.Base.Attempt.{done}
use bigip_kubernetes_gateway.Base.GoMap.{lookup, insert, values}
use bigip_kubernetes_gateway.Base.Lists.{select}
use bigip_kubernetes_gateway.Base.Text.{join}
use bigip_kubernetes_gateway.Api.{
  Gateway, GatewayClass, HttpRoute, RouteRule, RouteFilter, Listener, ParentRef, gateway_group,
}
use bigip_kubernetes_gateway.External.{External}
use bigip_kubernetes_gateway.External.Sample.{sample}
use bigip_kubernetes_gateway.Names.{gw_listener_name, hr_name, hr_parent_name}
use bigip_kubernetes_gateway.RouteMatch.{
  route_matches, matched_from, matched_kind, matched_protocol,
}
use bigip_kubernetes_gateway.Cache.{SigCache, empty_cache, get_gateway_class, get_namespace}
use bigip_kubernetes_gateway.Cache.Attached.{
  attached_gateways, attached_http_routes, listener_map, attaches_by,
}
use bigip_kubernetes_gateway.Deploys.{deploy_for_event}
use bigip_kubernetes_gateway.Deploys.Blocked.{deploy_for_event_blocked}

instance external : External
external = sample

abbrev no_ipv6 : String → Bool
no_ipv6 s = false

abbrev listener : Listener
listener = record {
  name = "web";
  hostname = none;
  port = 80;
  protocol = "HTTP";
  tls = none;
  allowed_routes =
      some
        (record { namespaces = some (record { from = some "All"; selector = none }); kinds = [] });
}

abbrev edge : Gateway
edge = record {
  meta = record { namespace = "front"; name = "edge"; group = gateway_group; kind = "Gateway" };
  class_name = "bigip";
  listeners = listener ∷ [];
  addresses = [];
}

abbrev parent : ParentRef
parent = record {
  group = none;
  kind = none;
  namespace = none;
  name = "edge";
  section_name = some "web";
}

abbrev mirror : RouteFilter
mirror = record {
  type = "RequestMirror";
  extension_ref = none;
  request_header_modifier = none;
  response_header_modifier = none;
  request_redirect = none;
}

abbrev rule : RouteRule
rule = record { matches = []; filters = mirror ∷ []; backend_refs = [] }

abbrev route : HttpRoute
route = record {
  meta = record { namespace = "front"; name = "route"; group = gateway_group; kind = "HTTPRoute" };
  hostnames = [];
  parent_refs = parent ∷ [];
  rules = rule ∷ [];
}

abbrev class : GatewayClass
class = record { name = "bigip"; controller_name = "f5.io/gateway" }

abbrev store : SigCache
store = record empty_cache {
  controller_name = "f5.io/gateway";
  gateway_class = ("bigip", class) ∷ [];
  gateway = ("front/edge", edge) ∷ [];
  http_route = ("front/route", route) ∷ [];
  namespace = ("front", record { name = "front"; labels = [] }) ∷ [];
}

blocked_example : deploy_for_event store no_ipv6 [] ("bigip" ∷ []) ≢ done none
unfolding external get_gateway_class lookup attached_gateways values attached_http_routes
    attaches_by listener_map select hr_parent_name hr_name gw_listener_name join route_matches
    get_namespace matched_from matched_kind matched_protocol insert
blocked_example =
    deploy_for_event_blocked store no_ipv6 [] "bigip" class edge route rule mirror ("bigip" ∷ [])
      none refl refl (head refl) (head refl) (head refl) (head refl) refl (head refl)
