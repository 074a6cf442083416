-- ===== src/Parser/Tests.antt =====
-- A gateway with one address and one listener, and a route without rules.
use mathlib.Core.List.Memᴰ.{head, tail}
use bigip_kubernetes_gateway.Base.{ℕ, String, ◌≡◌, refl, none, some, [], ◌∷◌}
use bigip_kubernetes_gateway.Base.Attempt.{done, decimal}
use bigip_kubernetes_gateway.Base.GoMap.{GoMap, lookup, insert, values}
use bigip_kubernetes_gateway.Base.Lists.{select}
use bigip_kubernetes_gateway.Base.Text.{join}
use bigip_kubernetes_gateway.Json.{Json, text, object, members}
use bigip_kubernetes_gateway.Api.{Gateway, HttpRoute, Listener, ParentRef, gateway_group}
use bigip_kubernetes_gateway.External.{External}
use bigip_kubernetes_gateway.External.Sample.{sample}
use bigip_kubernetes_gateway.Names.{gw_listener_name, hr_name, hr_parent_name}
use bigip_kubernetes_gateway.RouteMatch.{
  route_matches, matched_from, matched_kind, matched_protocol,
}
use bigip_kubernetes_gateway.Cache.{SigCache, empty_cache, get_gateway_class, get_namespace}
use bigip_kubernetes_gateway.Cache.Attached.{
  attached_gateways, attached_http_routes, listener_map, attaches_by,
}
use bigip_kubernetes_gateway.Cache.Secrets.{
  attached_secrets, add_listener_secrets, listener_secrets,
}
use bigip_kubernetes_gateway.IRules.{irule, execute_template, parse_irules_from}
use bigip_kubernetes_gateway.Parser.{
  parse_http_route, parse_http_routes, parse_gateways, parse_class, parse_all_for_class,
}
use bigip_kubernetes_gateway.Parser.Gateways.{
  host_rule, add_host_rule, add_host_rules, add_parent_rule, add_parent_rules, add_route_rules,
  parse_secret_map, parse_secrets, protocol_fields, virtual_of, add_virtuals, add_address,
  add_addresses, parse_gateway,
}
use bigip_kubernetes_gateway.Parser.Rules.{HasRule}
use bigip_kubernetes_gateway.Parser.VirtualNames.{virtual_key-inj}
use bigip_kubernetes_gateway.Parser.Integrity.{parse_all_for_class-HasRule}

instance external : External
external = sample

abbrev listener : Listener
listener = record {
  name = "web";
  hostname = some "shop.example";
  port = 80;
  protocol = "HTTP";
  tls = none;
  allowed_routes =
      some
        (record { namespaces = some (record { from = some "All"; selector = none }); kinds = [] });
}

abbrev edge : Gateway
edge = record {
  meta = record { namespace = "front"; name = "edge"; group = gateway_group; kind = "Gateway" };
  class_name = "bigip";
  listeners = listener ∷ [];
  addresses = record { type = some "IPAddress"; value = "10.0.0.1" } ∷ [];
}

abbrev parent : ParentRef
parent = record {
  group = none;
  kind = none;
  namespace = none;
  name = "edge";
  section_name = some "web";
}

abbrev route : HttpRoute
route = record {
  meta = record { namespace = "front"; name = "route"; group = gateway_group; kind = "HTTPRoute" };
  hostnames = [];
  parent_refs = parent ∷ [];
  rules = [];
}

abbrev store : SigCache
store = record empty_cache {
  controller_name = "f5.io/gateway";
  gateway_class = ("bigip", record { name = "bigip"; controller_name = "f5.io/gateway" }) ∷ [];
  gateway = ("front/edge", edge) ∷ [];
  http_route = ("front/route", route) ∷ [];
  namespace = ("front", record { name = "front"; labels = [] }) ∷ [];
}

abbrev body : String
body =
    "when RULE_INIT {\n\n  \n  \n\n  \n\n\n}\n\nwhen HTTP_REQUEST {\n\n  \n  \n  \n\n  \n\n\n\n}\n\nwhen HTTP_RESPONSE {\n\n  \n  \n\n  \n\n}"

abbrev virtual : Json
virtual =
    virtual_of (("profileHTTP", text "basic") ∷ ("class", text "Service_HTTP") ∷ []) "10.0.0.1" 80
      ("gw.front.edge.web" ∷ "hr.front.route" ∷ [])

abbrev resources : GoMap Json
resources =
    (
      "ltm/rule/gw.front.edge.web",
      object (members (("class", text "iRule") ∷ ("iRule", text (host_rule "shop.example")) ∷ [])),
    )
    ∷ ("ltm/virtual/gw.front.edge.web.0", virtual)
    ∷ ("ltm/rule/hr.front.route", irule store route body)
    ∷ []

parsed : parse_all_for_class store "bigip" ≡ done (("serviceMain", resources) ∷ [])
unfolding external parse_all_for_class parse_class get_gateway_class lookup parse_gateways
    attached_gateways values parse_gateway add_host_rules add_host_rule insert gw_listener_name join
    add_route_rules add_parent_rules add_parent_rule attached_http_routes listener_map select
    hr_parent_name hr_name route_matches get_namespace attached_secrets add_listener_secrets
    listener_secrets parse_secret_map parse_secrets add_addresses add_address add_virtuals
    protocol_fields decimal parse_http_routes parse_http_route parse_irules_from execute_template
    attaches_by matched_from matched_kind matched_protocol
parsed = refl

references_example : HasRule resources "hr.front.route"
unfolding lookup
references_example =
    parse_all_for_class-HasRule store "bigip" (("serviceMain", resources) ∷ []) resources
      "ltm/virtual/gw.front.edge.web.0" virtual "hr.front.route" parsed refl refl (tail (head refl))

abbrev tenth : ℕ
tenth = 10

virtual_key_example : (tenth ≡ tenth) × (listener.name ≡ listener.name)
virtual_key_example = virtual_key-inj edge [] tenth tenth listener listener refl
