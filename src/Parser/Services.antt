-- ===== src/Parser/Services.antt =====
-- internal/pkg/parser.go: ParseServices, the pools of services.
use bigip_kubernetes_gateway.Base.{
  String, Bool, Option, none, some, List, [], ◌∷◌, ◌++◌, map, or_default,
}
use bigip_kubernetes_gateway.Base.Attempt.{Attempt, done, fails, breaks, ◌>>=◌}
use bigip_kubernetes_gateway.Base.GoMap.{GoMap, lookup, insert}
use bigip_kubernetes_gateway.Base.Text.{split, ◌⧺◌}
use bigip_kubernetes_gateway.Json.{Json, text, number, array, object, members, items}
use bigip_kubernetes_gateway.Api.{Service, Endpoints}
use bigip_kubernetes_gateway.External.{External}
use bigip_kubernetes_gateway.Cache.{
  SigCache, object_key, get_service, get_endpoints, get_gateway_class,
}
use bigip_kubernetes_gateway.Cache.Attached.{related_services}
use bigip_kubernetes_gateway.K8s.Nodes.{NodeCache}
use bigip_kubernetes_gateway.K8s.Members.{
  Member, Result, Failure, ok, err, fatal, retry, format_members,
}

-- The errors of two constructors are told apart by no caller.
abbrev pub of_failure : Failure → String
of_failure (fatal e) = e
of_failure (retry e) = e

abbrev pub of_result {ℓ} : {A : Type ℓ} → Result A → Attempt A
of_result (ok a) = done a
of_result (err e) = fails (of_failure e)

abbrev pub pool_member : Member → Json
pool_member mb = object (
    members (
      ("servicePort", number mb.target_port)
      ∷ ("serverAddresses", array (items (text mb.ip_addr ∷ [])))
      ∷ []))

abbrev pub pool : List Json → Json
pool mbs = object (
    members (
      ("class", text "Pool")
      ∷ ("monitors", array (items (text "tcp" ∷ [])))
      ∷ ("members", array (items mbs))
      ∷ []))

abbrev pub Partitions : Type 0
Partitions = GoMap (GoMap (GoMap Json))

-- rlts[ns]["serviceMain"]["ltm/pool/" + n] = p, with the maps made on the way.
unfoldable pub put_pool : String → String → Json → Partitions → Partitions
put_pool ns n p rlts =
    let folders = or_default (("serviceMain", []) ∷ []) (lookup ns rlts) in
    let pools = or_default [] (lookup "serviceMain" folders) in
    insert ns (insert "serviceMain" (insert ("ltm/pool/" ⧺ n) p pools) folders) rlts

module _ ⦃ext : External⦄ (is_ipv6 : String → Bool) (nodes : NodeCache) (c : SigCache) where
  unfoldable pub members_of : Option Service → Option Endpoints → Attempt (List Json)
  members_of none eps = done []
  members_of (some svc) none = done []
  members_of (some svc) (some eps) = do
    mbs ← of_result (format_members is_ipv6 nodes (some svc) (some eps))
    done (map pool_member mbs)

  unfoldable pub parse_members_from : String → String → Attempt (List Json)
  parse_members_from ns n =
      members_of (get_service (object_key ns n) c) (get_endpoints (object_key ns n) c)

  unfoldable pub parse_service : List String → Partitions → Attempt Partitions
  parse_service (ns ∷ (n ∷ l)) rlts = do
    mbs ← parse_members_from ns n
    done (put_pool ns n (pool mbs) rlts)
  parse_service _ rlts = breaks

  unfoldable pub parse_services_into : List String → Partitions → Attempt Partitions
  parse_services_into [] rlts = done rlts
  parse_services_into (svc ∷ svcs) rlts = do
    rlts' ← parse_service (split "/" svc) rlts
    parse_services_into svcs rlts'

  unfoldable pub parse_services : List String → Attempt Partitions
  parse_services svcs = parse_services_into svcs []

  unfoldable pub classes_services : List String → List Service
  classes_services [] = []
  classes_services (n ∷ ns) = related_services (get_gateway_class n c) c ++ classes_services ns

  unfoldable pub parse_class_related_services : List String → Attempt Partitions
  parse_class_related_services gwc =
      parse_services (map (λ svc. object_key svc.namespace svc.name) (classes_services gwc))
