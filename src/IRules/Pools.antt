-- ===== src/IRules/Pools.antt =====
-- internal/pkg/iruletmpl_parser.go: the pools of a rule's backends with their weights.
use bigip_kubernetes_gateway.Base.{
  String, Bool, false, not, Option, none, some, List, [], ◌∷◌, if◌then◌else◌, or_default,
}
use bigip_kubernetes_gateway.Base.Attempt.{decimal}
use bigip_kubernetes_gateway.Base.Text.{join, ◌⧺◌}
use bigip_kubernetes_gateway.Api.{BackendRef, HttpRoute, Service}
use bigip_kubernetes_gateway.External.{External}
use bigip_kubernetes_gateway.Cache.{SigCache, object_key, get_service}
use bigip_kubernetes_gateway.Cache.Refer.{can_refer}

module _ ⦃ext : External⦄ where
  -- A service that is there and that the route may not refer to is left out.
  unfoldable pub is_denied : HttpRoute → SigCache → Option Service → Bool
  is_denied hr c none = false
  is_denied hr c (some svc) = not (can_refer hr.meta svc.meta c)

  abbrev pub pool_of : HttpRoute → BackendRef → String
  pool_of hr br = "/" ⧺ or_default hr.namespace br.namespace ⧺ "/serviceMain/" ⧺ br.name

  unfoldable pub pool_weights : HttpRoute → SigCache → List BackendRef → List String
  pool_weights hr c [] = []
  pool_weights hr c (br ∷ brs) =
      let rest = pool_weights hr c brs in
      let ns = or_default hr.namespace br.namespace in
      if is_denied hr c (get_service (object_key ns br.name) c)
      then rest
      else (pool_of hr br ⧺ " " ⧺ decimal (or_default 1 br.weight)) ∷ rest

  unfoldable pub parse_pool_weight : List BackendRef → HttpRoute → SigCache → String
  parse_pool_weight backends hr c = join " " (pool_weights hr c backends)
