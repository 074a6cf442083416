-- ===== src/Parser/Blocked.antt =====
-- A route that has no iRule keeps its class from being deployed.
use mathlib.Core.List.Memᴰ
use mathlib.Core.List.Memᴰ.{Memᴰ}
use bigip_kubernetes_gateway.Base.{
  String, false, not, ◌≡◌, ◌≢◌, inl, inr, arith, ◌==◌, eq_iff, some, List, [], ◌∷◌,
}
use bigip_kubernetes_gateway.Base.Attempt.{done, >>=-eq-done}
use bigip_kubernetes_gateway.Base.GoMap.{GoMap}
use bigip_kubernetes_gateway.Json.{Json}
use bigip_kubernetes_gateway.Api.{Gateway, GatewayClass, HttpRoute}
use bigip_kubernetes_gateway.External.{External}
use bigip_kubernetes_gateway.Cache.{SigCache, get_gateway_class}
use bigip_kubernetes_gateway.Cache.Attached.{attached_gateways, attached_http_routes}
use bigip_kubernetes_gateway.IRules.{execute_template}
use bigip_kubernetes_gateway.Parser.{
  parse_http_route, parse_http_routes, parse_gateways, parse_class, parse_all_for_class,
}
use bigip_kubernetes_gateway.Parser.Gateways.{parse_gateway}
use bigip_kubernetes_gateway.Parser.Integrity.{made_rule}

module _ ⦃ext : External⦄ (c : SigCache) (hr : HttpRoute)
    (no_rule : (t : String) → execute_template c hr ≢ done t) where
  routes-fail :
      (hrs : List HttpRoute) (rlt out : GoMap Json)
      → Memᴰ hr hrs
      → parse_http_routes c hrs rlt ≢ done out
  unfolding parse_http_routes
  routes-fail [] rlt out i e = Memᴰ.not-nil i
  routes-fail (h ∷ hrs) rlt out i e =
      let (mid, p, q) = >>=-eq-done (parse_http_route c (some h) rlt) _ e in
      elim (Memᴰ.cases_cons i) [
        | inl same ↦
            let (body, found, _) = made_rule c hr rlt mid (rw (← same) at p) in no_rule body found
        | inr j ↦ routes-fail hrs mid out j q
      ]

  gateways-fail :
      (gw : Gateway) (gws : List Gateway) (rlt out : GoMap Json)
      → Memᴰ hr (attached_http_routes (some gw) c)
      → Memᴰ gw gws
      → parse_gateways c gws rlt ≢ done out
  unfolding parse_gateways
  gateways-fail gw [] rlt out i j e = Memᴰ.not-nil j
  gateways-fail gw (g ∷ gws) rlt out i j e =
      let (mid, _, q) = >>=-eq-done (parse_gateway c (some g) rlt) _ e in
      let (made, p, q') =
        >>=-eq-done (parse_http_routes c (attached_http_routes (some g) c) mid) _ q in
      elim (Memᴰ.cases_cons j) [
        | inl same ↦ routes-fail (attached_http_routes (some gw) c) mid made i (rw (← same) at p)
        | inr k ↦ gateways-fail gw gws made out i k q'
      ]

  pub class-fails :
      (n : String) (gwc : GatewayClass) (gw : Gateway) (out : GoMap (GoMap Json))
      → get_gateway_class n c ≡ some gwc
      → gwc.controller_name ≡ c.controller_name
      → Memᴰ gw (attached_gateways (some gwc) c)
      → Memᴰ hr (attached_http_routes (some gw) c)
      → parse_all_for_class c n ≢ done out
  unfolding parse_all_for_class parse_class
  class-fails n gwc gw out found owned i j e =
      let owned' : not (gwc.controller_name == c.controller_name) ≡ false =
        ground (arith, eq_iff gwc.controller_name c.controller_name) in
      let (rlt, p, _) =
        >>=-eq-done (parse_gateways c (attached_gateways (some gwc) c) []) _
          (rw (found, owned') at e) in
      gateways-fail gw (attached_gateways (some gwc) c) [] rlt j i p
