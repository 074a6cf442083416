-- ===== src/Parser.antt =====
-- internal/pkg/parser.go: what is deployed for a gateway class. ActiveSIGs is the store that the
-- definitions take; a result that comes with an error is dropped by every caller.
pub mod Gateways
pub mod Services
pub mod Rules
pub mod Blocked
mod Tests
pub mod Integrity
pub mod VirtualNames
pub mod Virtuals
pub mod References
use bigip_kubernetes_gateway.Base.{
  String, Option, none, some, List, [], ◌∷◌, ◌==◌, if◌then◌else◌, not,
}
use bigip_kubernetes_gateway.Base.Attempt.{Attempt, done, fails, breaks, ◌>>=◌}
use bigip_kubernetes_gateway.Base.GoMap.{GoMap}
use bigip_kubernetes_gateway.Json.{Json}
use bigip_kubernetes_gateway.Api.{Gateway, GatewayClass, HttpRoute}
use bigip_kubernetes_gateway.External.{External}
use bigip_kubernetes_gateway.Cache.{SigCache, get_gateway_class}
use bigip_kubernetes_gateway.Cache.Attached.{attached_gateways, attached_http_routes}
use bigip_kubernetes_gateway.IRules.{parse_irules_from}
use Gateways.{parse_gateway}

module _ ⦃ext : External⦄ (c : SigCache) where
  unfoldable pub parse_http_route : Option HttpRoute → GoMap Json → Attempt (GoMap Json)
  parse_http_route none rlt = done rlt
  parse_http_route (some hr) rlt = parse_irules_from c hr rlt

  unfoldable pub parse_http_routes : List HttpRoute → GoMap Json → Attempt (GoMap Json)
  parse_http_routes [] rlt = done rlt
  parse_http_routes (hr ∷ hrs) rlt = do
    rlt' ← parse_http_route (some hr) rlt
    parse_http_routes hrs rlt'

  unfoldable pub parse_gateways : List Gateway → GoMap Json → Attempt (GoMap Json)
  parse_gateways [] rlt = done rlt
  parse_gateways (gw ∷ gws) rlt = do
    rlt' ← parse_gateway c (some gw) rlt
    rlt'' ← parse_http_routes (attached_http_routes (some gw) c) rlt'
    parse_gateways gws rlt''

  -- An empty result is nil.
  abbrev pub in_folder : GoMap Json → GoMap (GoMap Json)
  in_folder [] = []
  in_folder (r ∷ rlt) = ("serviceMain", r ∷ rlt) ∷ []

  unfoldable pub parse_class : Option GatewayClass → Attempt (GoMap (GoMap Json))
  parse_class none = done []
  parse_class (some gwc) =
      if not (gwc.controller_name == c.controller_name)
      then done []
      else (do rlt ← parse_gateways (attached_gateways (some gwc) c) []; done (in_folder rlt))

  unfoldable pub parse_all_for_class : String → Attempt (GoMap (GoMap Json))
  parse_all_for_class class_name = parse_class (get_gateway_class class_name c)
