-- ===== src/Deploys/Blocked.antt =====
-- One route that mirrors requests keeps every class that an event concerns from being deployed.
use mathlib.Core.List.Memᴰ
use mathlib.Core.List.Memᴰ.{Memᴰ}
use bigip_kubernetes_gateway.Base.{String, Bool, ◌≡◌, ◌≢◌, inl, inr, Option, some, List, [], ◌∷◌}
use bigip_kubernetes_gateway.Base.Attempt.{done, >>=-eq-done}
use bigip_kubernetes_gateway.Base.GoMap.{GoMap, insert}
use bigip_kubernetes_gateway.Json.{Json}
use bigip_kubernetes_gateway.Api.{Gateway, GatewayClass, RouteFilter, RouteRule, HttpRoute}
use bigip_kubernetes_gateway.External.{External}
use bigip_kubernetes_gateway.K8s.Nodes.{NodeCache}
use bigip_kubernetes_gateway.Cache.{SigCache, get_gateway_class}
use bigip_kubernetes_gateway.Cache.Attached.{attached_gateways, attached_http_routes}
use bigip_kubernetes_gateway.IRules.Failures.{execute_template-fails}
use bigip_kubernetes_gateway.Parser.{parse_all_for_class}
use bigip_kubernetes_gateway.Parser.Services.{Partitions}
use bigip_kubernetes_gateway.Parser.Blocked.{class-fails}
use bigip_kubernetes_gateway.Deployer.{DeployRequest}
use bigip_kubernetes_gateway.Deploys.{parse_classes, class_configs, deploy_for_event}

module _ ⦃ext : External⦄ (c : SigCache) where
  parse_classes-fail :
      (n : String) (ns : List String) (cfgs out : Partitions)
      → ((f : GoMap (GoMap Json)) → parse_all_for_class c n ≢ done f)
      → Memᴰ n ns
      → parse_classes c ns cfgs ≢ done out
  unfolding parse_classes
  parse_classes-fail n [] cfgs out bad i e = Memᴰ.not-nil i
  parse_classes-fail n (m ∷ ns) cfgs out bad i e =
      let (f, p, q) = >>=-eq-done (parse_all_for_class c m) _ e in
      elim (Memᴰ.cases_cons i) [
        | inl same ↦ bad f (rw (← same) at p)
        | inr j ↦ parse_classes-fail n ns (insert m f cfgs) out bad j q
      ]

  -- If a class of the controller has an attached gateway with an attached route, one of whose rules
  -- has a filter RequestMirror, then DeployForEvent puts no request into the queue for any list of
  -- classes with that class.
  pub deploy_for_event_blocked :
      (is_ipv6 : String → Bool) (nodes : NodeCache) (n : String) (gwc : GatewayClass) (gw : Gateway)
      (hr : HttpRoute) (rule : RouteRule) (f : RouteFilter) (classes : List String)
      (o : Option DeployRequest)
      → get_gateway_class n c ≡ some gwc
      → gwc.controller_name ≡ c.controller_name
      → Memᴰ gw (attached_gateways (some gwc) c)
      → Memᴰ hr (attached_http_routes (some gw) c)
      → Memᴰ rule hr.rules
      → Memᴰ f rule.filters
      → f.type ≡ "RequestMirror"
      → Memᴰ n classes
      → deploy_for_event c is_ipv6 nodes classes ≢ done o
  unfolding deploy_for_event class_configs
  deploy_for_event_blocked is_ipv6 nodes n gwc gw hr rule f [] o found owned i j r k m l e =
      Memᴰ.not-nil l
  deploy_for_event_blocked is_ipv6 nodes n gwc gw hr rule f (m ∷ ms) o found owned i j r k t l e =
      let (cfgs, p, _) = >>=-eq-done (class_configs c is_ipv6 nodes (m ∷ ms)) _ e in
      let (ncfgs, q, _) = >>=-eq-done (parse_classes c (m ∷ ms) []) _ p in
      let bad = λ (out : GoMap (GoMap Json)).
        class-fails c hr (λ b. execute_template-fails hr f t c rule k b r) n gwc gw out found owned
          i j in
      parse_classes-fail n (m ∷ ms) [] ncfgs bad l q
