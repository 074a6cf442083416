-- ===== src/Parser/Integrity.antt =====
-- What is deployed for a class names only iRules that are deployed with it.
use mathlib.Core.List.Memᴰ
use mathlib.Core.List.Memᴰ.{Memᴰ}
use bigip_kubernetes_gateway.Base.{
  String, not, ◌≡◌, refl, inl, inr, Bool-cases, ◌==◌, Option, none, some, List, [], ◌∷◌, map,
}
use bigip_kubernetes_gateway.Base.Attempt.{Attempt, done, fails, breaks, >>=-eq-done}
use bigip_kubernetes_gateway.Base.GoMap.{GoMap, lookup, insert, lookup-insert_same}
use bigip_kubernetes_gateway.Base.Text.{◌⧺◌}
use bigip_kubernetes_gateway.Json.{Json}
use bigip_kubernetes_gateway.Api.{Gateway, GatewayClass, HttpRoute}
use bigip_kubernetes_gateway.External.{External}
use bigip_kubernetes_gateway.Names.{hr_name}
use bigip_kubernetes_gateway.Cache.{SigCache, get_gateway_class}
use bigip_kubernetes_gateway.Cache.Attached.{attached_gateways, attached_http_routes}
use bigip_kubernetes_gateway.IRules.{irule, template_error, execute_template, parse_irules_from}
use bigip_kubernetes_gateway.Parser.{
  parse_http_route, parse_http_routes, parse_gateways, in_folder, parse_class, parse_all_for_class,
}
use bigip_kubernetes_gateway.Parser.Gateways.{parse_gateway}
use bigip_kubernetes_gateway.Parser.Rules.{
  rule_names, HasRule, Known, Covered, Covered-insert_plain,
}
use bigip_kubernetes_gateway.Parser.References.{parse_gateway-Covered}

module _ ⦃ext : External⦄ (c : SigCache) where
  made_from :
      (m : Attempt String) (hr : HttpRoute) (rlt out : GoMap Json)
      → ◌≡◌ {A = Attempt (GoMap Json)}
          (elim m [
            | done body ↦ done (insert ("ltm/rule/" ⧺ hr_name hr) (irule c hr body) rlt)
            | fails e ↦ fails (template_error c hr)
            | breaks ↦ fails (template_error c hr)
          ])
          (done out)
      → (body : String) × (m ≡ done body)
        × (insert ("ltm/rule/" ⧺ hr_name hr) (irule c hr body) rlt ≡ out)
  made_from (done body) hr rlt out e = (body, refl, cc e)
  made_from (fails err) hr rlt out e = cc e
  made_from breaks hr rlt out e = cc e

  -- The rule of a route that was parsed.
  pub made_rule :
      (hr : HttpRoute) (rlt out : GoMap Json)
      → parse_http_route c (some hr) rlt ≡ done out
      → (body : String) × (execute_template c hr ≡ done body)
        × (insert ("ltm/rule/" ⧺ hr_name hr) (irule c hr body) rlt ≡ out)
  unfolding parse_http_route parse_irules_from
  made_rule hr rlt out e = made_from (execute_template c hr) hr rlt out e

  -- A rule that stands there is no longer pending.
  settled :
      (ps : List String) (n : String) (rlt : GoMap Json) (r : String)
      → HasRule rlt n
      → Known (n ∷ ps) rlt r
      → Known ps rlt r
  settled ps n rlt r h (inl k) = inl k
  settled ps n rlt r h (inr m) = elim (Memᴰ.cases_cons m) [ inl e ↦ inl (rw e h) | inr i ↦ inr i ]

  route-Covered :
      (ps : List String) (hr : HttpRoute) (rlt out : GoMap Json)
      → Covered (hr_name hr ∷ ps) rlt
      → parse_http_route c (some hr) rlt ≡ done out
      → Covered ps out
  unfolding lookup
  route-Covered ps hr rlt out h e =
      let (body, _, made) = made_rule hr rlt out e in
      let key = "ltm/rule/" ⧺ hr_name hr in
      let v = irule c hr body in
      let after : Covered (hr_name hr ∷ ps) (insert key v rlt) =
        Covered-insert_plain (hr_name hr ∷ ps) key v rlt refl h in
      let there : HasRule (insert key v rlt) (hr_name hr) = (v, lookup-insert_same key v rlt) in
      let now : Covered ps (insert key v rlt) =
        λ k u found r i. settled ps (hr_name hr) (insert key v rlt) r there (after k u found r i) in
      rw (← made) now

  routes-Covered :
      (hrs : List HttpRoute) (rlt out : GoMap Json)
      → Covered (map hr_name hrs) rlt
      → parse_http_routes c hrs rlt ≡ done out
      → Covered [] out
  unfolding parse_http_routes
  routes-Covered [] rlt out h e = let same : rlt ≡ out = cc in rw (← same) h
  routes-Covered (hr ∷ hrs) rlt out h e =
      let (mid, f, g) = >>=-eq-done (parse_http_route c (some hr) rlt) _ e in
      routes-Covered hrs mid out (route-Covered (map hr_name hrs) hr rlt mid h f) g

  more_pending :
      (ps : List String) (rlt : GoMap Json) (r : String) → Known [] rlt r → Known ps rlt r
  more_pending ps rlt r (inl k) = inl k
  more_pending ps rlt r (inr m) = absurd (Memᴰ.not-nil m)

  gateways-Covered :
      (gws : List Gateway) (rlt out : GoMap Json)
      → Covered [] rlt
      → parse_gateways c gws rlt ≡ done out
      → Covered [] out
  unfolding parse_gateways
  gateways-Covered [] rlt out h e = let same : rlt ≡ out = cc in rw (← same) h
  gateways-Covered (gw ∷ gws) rlt out h e =
      let hrs = attached_http_routes (some gw) c in
      let (mid, f, g) = >>=-eq-done (parse_gateway c (some gw) rlt) _ e in
      let (made, f', g') = >>=-eq-done (parse_http_routes c hrs mid) _ g in
      let ps = map hr_name hrs in
      let covered =
        parse_gateway-Covered ps c gw rlt mid (λ hr i. Memᴰ.map hr_name i)
          (λ k v found r i. more_pending ps rlt r (h k v found r i)) f in
      gateways-Covered gws made out (routes-Covered hrs mid made covered f') g'

  in_folder-Covered :
      (rlt out : GoMap Json)
      → Covered [] rlt
      → lookup "serviceMain" (in_folder c rlt) ≡ some out
      → Covered [] out
  unfolding lookup
  in_folder-Covered [] out h e = cc e
  in_folder-Covered (r ∷ rlt) out h e = let same : r ∷ rlt ≡ out = cc in rw (← same) h

  class-Covered :
      (gwc : Option GatewayClass) (folders : GoMap (GoMap Json)) (out : GoMap Json)
      → parse_class c gwc ≡ done folders
      → lookup "serviceMain" folders ≡ some out
      → Covered [] out
  unfolding parse_class lookup
  class-Covered none folders out e found = let same : [] ≡ folders = cc in cc (rw (← same) at found)
  class-Covered (some gwc) folders out e found =
      elim (Bool-cases (not (gwc.controller_name == c.controller_name))) [
        | inl other ↦ let same : [] ≡ folders = cc (rw other at e) in cc (rw (← same) at found)
        | inr owned ↦
            let (rlt, f, g) =
              >>=-eq-done (parse_gateways c (attached_gateways (some gwc) c) []) _
                (rw owned at e) in
            let same : in_folder c rlt ≡ folders = cc in
            in_folder-Covered rlt out
              (gateways-Covered (attached_gateways (some gwc) c) [] rlt (λ k v none_ r i. cc none_)
                f)
              (rw (← same) at found)
      ]

  -- Each iRule that a resource of a parsed class names is a resource of that class.
  pub parse_all_for_class-HasRule :
      (class_name : String) (folders : GoMap (GoMap Json)) (rlt : GoMap Json) (k : String)
      (v : Json) (r : String)
      → parse_all_for_class c class_name ≡ done folders
      → lookup "serviceMain" folders ≡ some rlt
      → lookup k rlt ≡ some v
      → Memᴰ r (rule_names v)
      → HasRule rlt r
  unfolding parse_all_for_class
  parse_all_for_class-HasRule class_name folders rlt k v r e found at_key named =
      elim (class-Covered (get_gateway_class class_name c) folders rlt e found k v at_key r named) [
        | inl h ↦ h
        | inr i ↦ absurd (Memᴰ.not-nil i)
      ]
