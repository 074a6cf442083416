-- ===== src/Cache/Attached/Tests.antt =====
-- A gateway with one listener, and a route that names it: attachment, and the impact of a change.
use mathlib.Core.List.Memᴰ.{Memᴰ, head}
use bigip_kubernetes_gateway.Base.{
  String, ◌≡◌, refl, ◌↔◌, none, some, List, [], ◌∷◌, ◌==◌, eq_iff, inl, inr, Bool-cases, returns,
}
use bigip_kubernetes_gateway.Base.GoMap.{lookup, values}
use bigip_kubernetes_gateway.Base.Text.{join}
use bigip_kubernetes_gateway.Api.{Namespace, Gateway, HttpRoute, Listener, ParentRef, gateway_group}
use bigip_kubernetes_gateway.External.{External}
use bigip_kubernetes_gateway.External.Sample.{sample}
use bigip_kubernetes_gateway.External.Sample.Lawful.{sample-IsLawful}
use bigip_kubernetes_gateway.Cache.{SigCache, empty_cache, object_key}
use bigip_kubernetes_gateway.Cache.Refer.Names.{name}
use bigip_kubernetes_gateway.Cache.Refer.Keys.{IsName}
use bigip_kubernetes_gateway.Cache.Impact.{ns_impacted_gateway_classes}
use bigip_kubernetes_gateway.Cache.Impact.Laws.{Concerns, ns_impacted_iff}
use bigip_kubernetes_gateway.Cache.Attached.{gateway_refs_of_hr, attached_http_routes}
use bigip_kubernetes_gateway.Cache.Attached.Sections.{HasDistinctNames}
use bigip_kubernetes_gateway.Cache.Attached.Consistent.{
  IsParent, IsKeyed, gateway_refs_iff_attached,
}

instance external : External
external = sample

abbrev listener : Listener
listener = record {
  name = "web";
  hostname = none;
  port = 80;
  protocol = "HTTP";
  tls = none;
  allowed_routes =
      some
        (record { namespaces = some (record { from = some "All"; selector = none }); kinds = [] });
}

abbrev edge : Gateway
edge = record {
  meta = record { namespace = "front"; name = "edge"; group = gateway_group; kind = "Gateway" };
  class_name = "bigip";
  listeners = listener ∷ [];
  addresses = [];
}

abbrev parent : ParentRef
parent = record {
  group = none;
  kind = none;
  namespace = none;
  name = "edge";
  section_name = some "web";
}

abbrev route : HttpRoute
route = record {
  meta = record { namespace = "front"; name = "route"; group = gateway_group; kind = "HTTPRoute" };
  hostnames = [];
  parent_refs = parent ∷ [];
  rules = [];
}

abbrev front : Namespace
front = record { name = "front"; labels = [] }

abbrev store : SigCache
store = record empty_cache {
  gateway = ("front/edge", edge) ∷ [];
  http_route = ("front/route", route) ∷ [];
  namespace = ("front", front) ∷ [];
}

edge_keyed :
    (k : String) (gw : Gateway)
    → "front/edge" ≡ k
    → edge ≡ gw
    → (k ≡ object_key gw.namespace gw.name)
      × IsName gw.namespace
      × IsName gw.name
      × HasDistinctNames gw.listeners
unfolding external join
edge_keyed k gw e f = rw (← e, ← f) (refl, name refl, name refl, (refl, tt))

store-IsKeyed : IsKeyed store
unfolding lookup
store-IsKeyed k gw found = elim (Bool-cases ("front/edge" == k)) [
  | inl y ↦ edge_keyed k gw ((eq_iff _ _).0 y) (cc (rw y at found))
  | inr n ↦ cc (rw n at found)
]

parent-IsParent : IsParent parent
parent-IsParent = record { section = ("web", refl); name = name refl; namespace = tt }

gateway_refs_example :
    (gws : List Gateway) × (gateway_refs_of_hr (some route) store ≡ returns gws)
    × (Memᴰ edge gws ↔ Memᴰ route (attached_http_routes (some edge) store))
unfolding lookup values external join
gateway_refs_example =
    gateway_refs_iff_attached sample-IsLawful store route edge store-IsKeyed (name refl) refl
      (head refl) (parent-IsParent, tt)

ns_impacted_example :
    Memᴰ "bigip" (ns_impacted_gateway_classes (some front) store)
    ↔ ((hr : HttpRoute) × Memᴰ hr (values store.http_route) × Concerns store "front" "bigip" hr)
unfolding external
ns_impacted_example = ns_impacted_iff store sample-IsLawful front "bigip"
