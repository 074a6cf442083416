-- ===== src/Cache/Refer.antt =====
-- internal/pkg/cache.go: CanRefer, whether an object may refer to one of another namespace.
pub mod Laws
pub mod Keys
pub mod Objects
pub mod Names
use bigip_kubernetes_gateway.Base.{
  String, Bool, true, false, not, ◌||◌, Option, none, some, ◌==◌, if◌then◌else◌,
}
use bigip_kubernetes_gateway.Api.{Object, GrantFrom, GrantTo, gateway_group}
use bigip_kubernetes_gateway.External.{External}
use bigip_kubernetes_gateway.Grants.{exists, stringify_rg_from, stringify_rg_to}
use bigip_kubernetes_gateway.Cache.{SigCache}

abbrev pub grant_from : Object → GrantFrom
grant_from o = record { group = o.group; kind = o.kind; namespace = o.namespace }

abbrev pub grant_to : Object → Option String → GrantTo
grant_to o name = record { group = o.group; kind = o.kind; name = name }

module _ ⦃ext : External⦄ where
  unfoldable pub can_refer : Object → Object → SigCache → Bool
  can_refer from to c =
      if from.namespace == to.namespace
      then true
      else if not (from.group == gateway_group)
      then false
      else (let f = stringify_rg_from (grant_from from) in
          let t = stringify_rg_to to.namespace (grant_to to (some to.name)) in
          let to_all = stringify_rg_to to.namespace (grant_to to none) in
          exists f t c.ref_from_to || exists f to_all c.ref_from_to)
