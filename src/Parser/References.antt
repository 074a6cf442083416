-- ===== src/Parser/References.antt =====
-- Each iRule that a virtual server names is deployed with it.
use mathlib.Core.List.Memᴰ
use mathlib.Core.List.Memᴰ.{Memᴰ, head, tail}
use bigip_kubernetes_gateway.Base.{
  String, Bool, true, false, ◌≡◌, refl, inl, inr, Option-cases, Option, none, some, List, [], ◌∷◌,
  if◌then◌else◌,
}
use bigip_kubernetes_gateway.Base.Attempt.{done, >>=-eq-done}
use bigip_kubernetes_gateway.Base.GoMap.{GoMap, lookup, insert, lookup-insert_same}
use bigip_kubernetes_gateway.Base.Text.{◌⧺◌}
use bigip_kubernetes_gateway.Json.{Json, members, text, object}
use bigip_kubernetes_gateway.Api.{Gateway, HttpRoute, Listener, ParentRef, Secret}
use bigip_kubernetes_gateway.External.{External}
use bigip_kubernetes_gateway.Names.{gw_listener_name, hr_name, hr_parent_name}
use bigip_kubernetes_gateway.Cache.{SigCache}
use bigip_kubernetes_gateway.Cache.Attached.{listener_map, attached_http_routes}
use bigip_kubernetes_gateway.Cache.Secrets.{attached_secrets}
use bigip_kubernetes_gateway.Parser.Gateways.{
  RuleNames, rules_at, host_rule, add_host_rule, add_host_rules, takes_route, add_parent_rule,
  add_parent_rules, add_route_rules, add_files, parse_secrets, parse_secret_map, parse_gateway,
  certificate_file, tls_server,
}
use bigip_kubernetes_gateway.Parser.Virtuals.{add_addresses-Holds}
use bigip_kubernetes_gateway.Parser.Rules.{
  rule_names, AllKnown, Covered, Known-insert, Covered-insert_plain, AllNamed, AllNamed-insert,
  AllKnown-append,
}

abbrev object_rule : String → Json
object_rule hostname =
    object (members (("class", text "iRule") ∷ ("iRule", text (host_rule hostname)) ∷ []))

module _ ⦃ext : External⦄ (ps : List String) where
  -- The two maps that parseGateway builds.
  abbrev Built : RuleNames × GoMap Json → Type 0
  Built (irules, rlt) = Covered ps rlt × AllNamed ps rlt irules

  AllNamed-grows :
      (k : String) (v : Json) (rlt : GoMap Json) (irules : RuleNames)
      → AllNamed ps rlt irules
      → AllNamed ps (insert k v rlt) irules
  AllNamed-grows k v rlt irules h vs r i = Known-insert ps k v rlt r (h vs r i)

  add_host_rule-Built :
      (vs : String) (o : Option String) (s : RuleNames × GoMap Json)
      → Built s
      → Built (add_host_rule vs o s)
  unfolding add_host_rule lookup
  add_host_rule-Built vs none s h = h
  add_host_rule-Built vs (some hostname) (irules, rlt) (c, n) =
      let key = "ltm/rule/" ⧺ vs in
      let rule = object_rule hostname in
      (
        Covered-insert_plain ps key rule rlt refl c,
        AllNamed-insert ps (insert key rule rlt) vs _ irules
            (AllKnown-append ps _ (rules_at vs irules) vs
              (λ r i. Known-insert ps key rule rlt r (n vs r i))
              (inl (rule, lookup-insert_same key rule rlt)))
            (AllNamed-grows key rule rlt irules n),
      )

  add_host_rules-Built :
      (gw : Gateway) (lss : List Listener) (s : RuleNames × GoMap Json)
      → Built s
      → Built (add_host_rules gw lss s)
  unfolding add_host_rules
  add_host_rules-Built gw [] s h = h
  add_host_rules-Built gw (ls ∷ lss) s h =
      add_host_rules-Built gw lss _ (add_host_rule-Built (gw_listener_name gw ls) ls.hostname s h)

  module _ (rlt : GoMap Json) where
    if-AllKnown :
        (b : Bool) (rs ss : List String)
        → AllKnown ps rlt rs
        → AllKnown ps rlt ss
        → AllKnown ps rlt (if b then rs else ss)
    if-AllKnown true rs ss h k = h
    if-AllKnown false rs ss h k = k

    add_parent_rule-AllNamed :
        (c : SigCache) (listeners : GoMap Listener) (hr : HttpRoute) (pr : ParentRef)
        (irules : RuleNames)
        → Memᴰ (hr_name hr) ps
        → AllNamed ps rlt irules
        → AllNamed ps rlt (add_parent_rule c listeners hr pr irules)
    unfolding add_parent_rule
    add_parent_rule-AllNamed c listeners hr pr irules m h =
        AllNamed-insert ps rlt (hr_parent_name hr pr) _ irules
          (if-AllKnown (takes_route c listeners hr pr) _ _
            (AllKnown-append ps rlt (rules_at (hr_parent_name hr pr) irules) (hr_name hr)
              (h (hr_parent_name hr pr)) (inr m))
            (h (hr_parent_name hr pr)))
          h

    add_parent_rules-AllNamed :
        (c : SigCache) (listeners : GoMap Listener) (hr : HttpRoute) (prs : List ParentRef)
        (irules out : RuleNames)
        → Memᴰ (hr_name hr) ps
        → AllNamed ps rlt irules
        → add_parent_rules c listeners hr prs irules ≡ done out
        → AllNamed ps rlt out
    unfolding add_parent_rules
    add_parent_rules-AllNamed c listeners hr [] irules out m h e =
        let same : irules ≡ out = cc in rw (← same) h
    add_parent_rules-AllNamed c listeners hr (pr ∷ prs) irules out m h e =
        elim (Option-cases pr.section_name) [
          | inl absent ↦ cc (rw absent at e)
          | inr (sn, found) ↦
              add_parent_rules-AllNamed c listeners hr prs
                (add_parent_rule c listeners hr pr irules) out m
                (add_parent_rule-AllNamed c listeners hr pr irules m h) (rw found at e)
        ]

    add_route_rules-AllNamed :
        (c : SigCache) (listeners : GoMap Listener) (hrs : List HttpRoute) (irules out : RuleNames)
        → ((hr : HttpRoute) → Memᴰ hr hrs → Memᴰ (hr_name hr) ps)
        → AllNamed ps rlt irules
        → add_route_rules c listeners hrs irules ≡ done out
        → AllNamed ps rlt out
    unfolding add_route_rules
    add_route_rules-AllNamed c listeners [] irules out m h e =
        let same : irules ≡ out = cc in rw (← same) h
    add_route_rules-AllNamed c listeners (hr ∷ hrs) irules out m h e =
        let (mid, f, g) = >>=-eq-done (add_parent_rules c listeners hr hr.parent_refs irules) _ e in
        add_route_rules-AllNamed c listeners hrs mid out (λ x i. m x (tail i))
          (add_parent_rules-AllNamed c listeners hr hr.parent_refs irules mid (m hr (head refl)) h
            f)
          g

  Built-plain :
      (k : String) (v : Json) (irules : RuleNames) (rlt : GoMap Json)
      → rule_names v ≡ []
      → Built (irules, rlt)
      → Built (irules, insert k v rlt)
  Built-plain k v irules rlt e (c, n) =
      (Covered-insert_plain ps k v rlt e c, AllNamed-grows k v rlt irules n)

  add_files-Built :
      (irules : RuleNames) (scrts : List Secret) (rlt : GoMap Json)
      → Built (irules, rlt)
      → Built (irules, add_files scrts rlt)
  unfolding add_files lookup
  add_files-Built irules [] rlt h = h
  add_files-Built irules (scrt ∷ scrts) rlt h =
      add_files-Built irules scrts _ (Built-plain _ (certificate_file scrt) irules rlt refl h)

  parse_secrets-Built :
      (irules : RuleNames) (lsname : String) (scrts : List Secret) (rlt : GoMap Json)
      → Built (irules, rlt)
      → Built (irules, parse_secrets lsname scrts rlt)
  unfolding parse_secrets lookup
  parse_secrets-Built irules lsname [] rlt h = h
  parse_secrets-Built irules lsname (scrt ∷ scrts) rlt h =
      Built-plain _ (tls_server (scrt ∷ scrts)) irules _ refl
        (add_files-Built irules (scrt ∷ scrts) rlt h)

  parse_secret_map-Built :
      (irules : RuleNames) (m : GoMap (List Secret)) (rlt : GoMap Json)
      → Built (irules, rlt)
      → Built (irules, parse_secret_map m rlt)
  unfolding parse_secret_map
  parse_secret_map-Built irules [] rlt h = h
  parse_secret_map-Built irules ((k, scrts) ∷ m) rlt h =
      parse_secret_map-Built irules m _ (parse_secrets-Built irules k scrts rlt h)

  -- What parseGateway leaves, with the rules of its routes still to be made.
  pub parse_gateway-Covered :
      (c : SigCache) (gw : Gateway) (rlt out : GoMap Json)
      → ((hr : HttpRoute) → Memᴰ hr (attached_http_routes (some gw) c) → Memᴰ (hr_name hr) ps)
      → Covered ps rlt
      → parse_gateway c (some gw) rlt ≡ done out
      → Covered ps out
  unfolding parse_gateway lookup
  parse_gateway-Covered c gw rlt out pending h e =
      let s = add_host_rules gw gw.listeners ([], rlt) in
      let (covered, named) =
        add_host_rules-Built gw gw.listeners ([], rlt) (h, λ vs r i. absurd (Memᴰ.not-nil i)) in
      let hrs = attached_http_routes (some gw) c in
      let (irules, f, g) =
        >>=-eq-done (add_route_rules c (listener_map gw gw.listeners []) hrs s.0) _ e in
      let named' = add_route_rules-AllNamed s.1 c _ hrs s.0 irules pending named f in
      let (scrtmap, f', g') = >>=-eq-done (attached_secrets (some gw) c) _ g in
      (add_addresses-Holds ps gw irules 0 gw.addresses (parse_secret_map scrtmap s.1) out
        (parse_secret_map-Built irules scrtmap s.1 (covered, named')) g').0
