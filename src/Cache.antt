-- ===== src/Cache.antt =====
-- internal/pkg/types.go and cache.go: the store `SIGCache`, with the index `refFromTo` that stands
-- beside it as a package variable. A method that takes a pointer takes an `Option`. Each method
-- holds the store's mutex throughout, so that it is one step of the state.
pub mod GrantIndex
pub mod Refer
pub mod Attached
pub mod Impact
pub mod Secrets
pub mod Laws
mod Tests
use bigip_kubernetes_gateway.Base.{
  String, Bool, false, Option, none, some, List, [], ◌∷◌, ◌==◌, Outcome, returns, panics,
}
use bigip_kubernetes_gateway.Base.Lists.{select}
use bigip_kubernetes_gateway.Base.GoMap
use bigip_kubernetes_gateway.Base.GoMap.{GoMap, lookup, insert, delete, values}
use bigip_kubernetes_gateway.Api.{
  Namespace, GatewayClass, Gateway, HttpRoute, Service, Endpoints, Secret, ReferenceGrant,
}
use bigip_kubernetes_gateway.External.{External}
use bigip_kubernetes_gateway.Grants.{FromTo, set, unset}

pub record SigCache : Type 0 where
  pub synced_at_start : Bool
  pub controller_name : String
  pub gateway : GoMap Gateway
  pub http_route : GoMap HttpRoute
  pub endpoints : GoMap Endpoints
  pub service : GoMap Service
  pub gateway_class : GoMap GatewayClass
  pub namespace : GoMap Namespace
  pub reference_grant : GoMap ReferenceGrant
  pub secret : GoMap Secret
  pub ref_from_to : FromTo

-- What `init` puts into the package variables.
abbrev pub empty_cache : SigCache
empty_cache = record {
  synced_at_start = false;
  controller_name = "";
  gateway = [];
  http_route = [];
  endpoints = [];
  service = [];
  gateway_class = [];
  namespace = [];
  reference_grant = [];
  secret = [];
  ref_from_to = [];
}

unfoldable pub set_namespace : Option Namespace → SigCache → SigCache
set_namespace none c = c
set_namespace (some obj) c = record c { namespace = insert obj.name obj c.namespace }

unfoldable pub unset_namespace : String → SigCache → SigCache
unset_namespace keyname c = record c { namespace = delete keyname c.namespace }

unfoldable pub get_namespace : String → SigCache → Option Namespace
get_namespace keyname c = lookup keyname c.namespace

unfoldable pub set_gateway_class : Option GatewayClass → SigCache → SigCache
set_gateway_class none c = c
set_gateway_class (some obj) c = record c { gateway_class = insert obj.name obj c.gateway_class }

unfoldable pub unset_gateway_class : String → SigCache → SigCache
unset_gateway_class keyname c = record c { gateway_class = delete keyname c.gateway_class }

unfoldable pub get_gateway_class : String → SigCache → Option GatewayClass
get_gateway_class keyname c = lookup keyname c.gateway_class

unfoldable pub unset_gateway : String → SigCache → SigCache
unset_gateway keyname c = record c { gateway = delete keyname c.gateway }

unfoldable pub get_gateway : String → SigCache → Option Gateway
get_gateway keyname c = lookup keyname c.gateway

unfoldable pub unset_http_route : String → SigCache → SigCache
unset_http_route keyname c = record c { http_route = delete keyname c.http_route }

unfoldable pub get_http_route : String → SigCache → Option HttpRoute
get_http_route keyname c = lookup keyname c.http_route

unfoldable pub get_service : String → SigCache → Option Service
get_service keyname c = lookup keyname c.service

unfoldable pub get_services_with_namespace : String → SigCache → List Service
get_services_with_namespace ns c = select (λ svc. svc.namespace == ns) (values c.service)

unfoldable pub get_endpoints : String → SigCache → Option Endpoints
get_endpoints keyname c = lookup keyname c.endpoints

unfoldable pub unset_endpoints : String → SigCache → SigCache
unset_endpoints keyname c = record c { endpoints = delete keyname c.endpoints }

unfoldable pub unset_service : String → SigCache → SigCache
unset_service keyname c = record c { service = delete keyname c.service }

unfoldable pub unset_secret : String → SigCache → SigCache
unset_secret keyname c = record c { secret = delete keyname c.secret }

unfoldable pub get_secret : String → SigCache → Option Secret
get_secret keyname c = lookup keyname c.secret

unfoldable pub get_reference_grant : String → SigCache → Option ReferenceGrant
get_reference_grant keyname c = lookup keyname c.reference_grant

module _ ⦃ext : External⦄ where
  abbrev pub object_key : String → String → String
  object_key ns name = ext.keyname (ns ∷ name ∷ [])

  unfoldable pub set_gateway : Option Gateway → SigCache → SigCache
  set_gateway none c = c
  set_gateway (some obj) c = record c {
    gateway = insert (object_key obj.namespace obj.name) obj c.gateway;
  }

  unfoldable pub set_http_route : Option HttpRoute → SigCache → SigCache
  set_http_route none c = c
  set_http_route (some obj) c = record c {
    http_route = insert (object_key obj.namespace obj.name) obj c.http_route;
  }

  unfoldable pub set_endpoints : Option Endpoints → SigCache → SigCache
  set_endpoints none c = c
  set_endpoints (some eps) c = record c {
    endpoints = insert (object_key eps.namespace eps.name) eps c.endpoints;
  }

  unfoldable pub set_service : Option Service → SigCache → SigCache
  set_service none c = c
  set_service (some svc) c = record c {
    service = insert (object_key svc.namespace svc.name) svc c.service;
  }

  -- There is no test for nil here.
  unfoldable pub set_secret : Option Secret → SigCache → Outcome SigCache
  set_secret none c = panics
  set_secret (some scrt) c =
      returns (record c { secret = insert (object_key scrt.namespace scrt.name) scrt c.secret })

  -- The index without what an old version of a grant put into it.
  abbrev without_old : Option ReferenceGrant → FromTo → FromTo
  without_old none m = m
  without_old (some org) m = unset org m

  unfoldable pub set_reference_grant : Option ReferenceGrant → SigCache → SigCache
  set_reference_grant none c = c
  set_reference_grant (some rg) c =
      let keyname = object_key rg.namespace rg.name in
      record c {
        reference_grant = insert keyname rg c.reference_grant;
        ref_from_to = set rg (without_old (lookup keyname c.reference_grant) c.ref_from_to);
      }

  -- The `if rg != nil` of UnsetReferenceGrant, on what the map holds.
  unset_found : String → Option ReferenceGrant → SigCache → SigCache
  unset_found keyname none c = c
  unset_found keyname (some rg) c = record c {
    reference_grant = delete keyname c.reference_grant;
    ref_from_to = unset rg c.ref_from_to;
  }

  unfoldable pub unset_reference_grant : String → SigCache → SigCache
  unfolding unset_found
  unset_reference_grant keyname c = unset_found keyname (lookup keyname c.reference_grant) c
