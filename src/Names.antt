-- ===== src/Names.antt =====
-- internal/pkg/utils.go: the names of the resources on the BIG-IP, the check of a reference's type,
-- and the lists of gateways without repetition.
use bigip_kubernetes_gateway.Base.{
  String, Bool, true, not, ◌||◌, Option, none, some, List, [], ◌∷◌, map, ◌==◌, if◌then◌else◌,
  or_default,
}
use bigip_kubernetes_gateway.Base.Text.{join, ◌⧺◌}
use bigip_kubernetes_gateway.Base.GoMap.{GoMap, lookup, insert}
use bigip_kubernetes_gateway.Api.{Gateway, HttpRoute, Listener, ParentRef, Secret, core_group}
use bigip_kubernetes_gateway.External.{External}

unfoldable pub hr_name : HttpRoute → String
hr_name hr = join "." ("hr" ∷ hr.namespace ∷ hr.name ∷ [])

unfoldable pub hr_parent_name : HttpRoute → ParentRef → String
hr_parent_name hr pr =
    let ns = or_default hr.namespace pr.namespace in
    join "." ("gw" ∷ ns ∷ pr.name ∷ or_default "" pr.section_name ∷ [])

unfoldable pub gw_listener_name : Gateway → Listener → String
gw_listener_name gw ls = join "." ("gw" ∷ gw.namespace ∷ gw.name ∷ ls.name ∷ [])

unfoldable pub tls_name : Secret → String
tls_name scrt = join "." ("scrt" ∷ scrt.namespace ∷ scrt.name ∷ [])

module _ ⦃ext : External⦄ where
  -- An error stands by its text.
  unfoldable pub validate_secret_type : Option String → Option String → Option String
  validate_secret_type group kind =
      let g = or_default core_group group in
      let k = or_default "Secret" kind in
      if not (g == core_group) || not (k == "Secret")
      then some ("not Secret type: '" ⧺ ext.keyname (g ∷ k ∷ []) ⧺ "'")
      else none

  unified_from : GoMap Bool → List Gateway → List Gateway
  unified_from m [] = []
  unified_from m (obj ∷ objs) =
      let name = ext.keyname (obj.namespace ∷ obj.name ∷ []) in
      elim (lookup name m) [
        | none ↦ obj ∷ unified_from (insert name true m) objs
        | some seen ↦ unified_from m objs
      ]

  unfoldable pub unified_gateways : List Gateway → List Gateway
  unfolding unified_from
  unified_gateways objs = unified_from [] objs

  unfoldable pub class_names_of_gateways : List Gateway → List String
  class_names_of_gateways gws = ext.unified (map (λ gw. gw.class_name) gws)
