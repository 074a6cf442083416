-- ===== src/Webhooks/Validate/Parents.antt =====
-- validateHTTPRouteParentRefs accepts exactly the routes whose parents are gateways that exist, by a
-- section's name, where each listener of that name takes the route.
use bigip_kubernetes_gateway.Base.{
  String, ◌≡◌, ◌≢◌, ◌↔◌, inl, inr, true, false, none, some, List, [], ◌∷◌, ◌==◌, eq_iff, arith,
  Bool-cases, Option-cases, or_default,
}
use bigip_kubernetes_gateway.Base.Lists.{All}
use bigip_kubernetes_gateway.Base.Text.{◌⧺◌}
use bigip_kubernetes_gateway.Api.{HttpRoute, ParentRef, Gateway, Listener, Namespace}
use bigip_kubernetes_gateway.External.{External}
use bigip_kubernetes_gateway.RouteMatch.{route_matches, http_route_type}
use bigip_kubernetes_gateway.Webhooks.Manager.{Manager, object_key_from_string}
use bigip_kubernetes_gateway.Webhooks.Validate.{
  validate_gateway_type, check_section, check_section_listener, check_named_parent, check_parent,
  check_parents, validate_http_route_parent_refs,
}
use bigip_kubernetes_gateway.Webhooks.Validate.Messages.{speaks_left, gateway_error}
use bigip_kubernetes_gateway.Webhooks.Validate.Checks.{
  Checks, Checks-passing, Checks-bad_ref, Checks-bad_type, Checks-iff, Checks-same, Checks-then,
  Checks-done, verdict_iff,
}

module _ ⦃ext : External⦄ (mgr : Manager) (hr : HttpRoute) where
  -- A listener of the section's name takes routes of the route's namespace, which exists.
  abbrev pub ListenerOk : Gateway → String → Listener → Type 0
  ListenerOk gw sn ls =
      ls.name ≡ sn
      → (n : Namespace) × (mgr.get_namespace (object_key_from_string hr.namespace) ≡ some n)
        × (route_matches gw.namespace (some ls) (some n) http_route_type ≡ true)

  refuses :
      (gw : Gateway) (ls : Listener) (n : Namespace)
      → mgr.get_namespace (object_key_from_string hr.namespace) ≡ some n
      → route_matches gw.namespace (some ls) (some n) http_route_type ≡ false
      → ¬ (
          (m : Namespace) × (mgr.get_namespace (object_key_from_string hr.namespace) ≡ some m)
          × (route_matches gw.namespace (some ls) (some m) http_route_type ≡ true))
  refuses gw ls n there no_ (m, found, yes_) =
      let same : m ≡ n = cc in
      let y : route_matches gw.namespace (some ls) (some n) http_route_type ≡ true =
        rw (← same) yes_ in
      cc

  invalid_spoken : (key : String) → "invalid reference to " ⧺ key ≢ ""
  invalid_spoken key =
      speaks_left "invalid reference to " key (ground (arith, eq_iff "invalid reference to " ""))

  Checks-listener :
      (gw : Gateway) (sn : String) (ls : Listener)
      → Checks (check_section_listener mgr hr gw sn ls) (ListenerOk gw sn ls)
  unfolding check_section_listener
  Checks-listener gw sn ls = elim (Bool-cases (ls.name == sn)) [
    | inr other ↦ Checks-passing (λ e. ground (arith, eq_iff ls.name sn)) (λ i. rw other)
    | inl same ↦
        let e : ls.name ≡ sn = (eq_iff ls.name sn).0 same in
        let msg = "invalid reference to " ⧺ ext.keyname (gw.namespace ∷ gw.name ∷ ls.name ∷ []) in
        elim (Option-cases (mgr.get_namespace (object_key_from_string hr.namespace))) [
          | inl missing ↦
              Checks-bad_ref msg (invalid_spoken _) (λ ok. cc (missing, (ok e).1))
                (λ i. rw (same, missing))
          | inr (n, there) ↦
              elim (Bool-cases (route_matches gw.namespace (some ls) (some n) http_route_type)) [
                | inl y ↦ Checks-passing (λ e'. (n, there, y)) (λ i. rw (same, there, y))
                | inr no_ ↦
                    Checks-bad_ref msg (invalid_spoken _) (λ ok. refuses gw ls n there no_ (ok e))
                      (λ i. rw (same, there, no_))
              ]
        ]
  ]

  Checks-section :
      (gw : Gateway) (sn : String) (lss : List Listener)
      → Checks (check_section mgr hr gw sn lss) (All (ListenerOk gw sn) lss)
  unfolding check_section
  Checks-section gw sn [] = Checks-done
  Checks-section gw sn (ls ∷ rest) =
      Checks-then (Checks-listener gw sn ls) (Checks-section gw sn rest)

  abbrev pub NamedOk : ParentRef → String → Type 0
  NamedOk pr sn =
      (validate_gateway_type pr.group pr.kind ≡ none)
      × ((gw : Gateway) × (mgr.get_gateway (
              object_key_from_string
                (ext.keyname (or_default hr.namespace pr.namespace ∷ pr.name ∷ [])))
            ≡ some gw)
          × All (ListenerOk gw sn) gw.listeners)

  same_gateway :
      (key sn : String) (gw gw' : Gateway)
      → mgr.get_gateway (object_key_from_string key) ≡ some gw
      → mgr.get_gateway (object_key_from_string key) ≡ some gw'
      → All (ListenerOk gw' sn) gw'.listeners
      → All (ListenerOk gw sn) gw.listeners
  same_gateway key sn gw gw' e e' h = let same : gw' ≡ gw = cc in rw (← same) h

  Checks-named :
      (pr : ParentRef) (sn : String)
      → Checks
          (check_named_parent mgr hr pr
            (ext.keyname (or_default hr.namespace pr.namespace ∷ pr.name ∷ []))
            sn)
          (NamedOk pr sn)
  unfolding check_named_parent
  Checks-named pr sn = elim (Option-cases (validate_gateway_type pr.group pr.kind)) [
    | inr (err, bad) ↦
        Checks-bad_type err (gateway_error pr.group pr.kind bad) (λ ok. cc (bad, ok.0))
          (λ i. rw (bad, check_named_parent))
    | inl typed ↦
        let key = ext.keyname (or_default hr.namespace pr.namespace ∷ pr.name ∷ []) in
        elim (Option-cases (mgr.get_gateway (object_key_from_string key))) [
          | inl missing ↦
              Checks-bad_ref ("no gateway '" ⧺ key ⧺ "' found")
                (speaks_left "no gateway '" _ (ground (arith, eq_iff "no gateway '" "")))
                (λ ok. cc (missing, ok.1.1)) (λ i. rw (typed, check_named_parent, missing))
          | inr (gw, there) ↦
              Checks-same
                (Checks-iff (Checks-section gw sn gw.listeners) (λ h. (typed, (gw, there, h)))
                  (λ (t, (gw', there', h)). same_gateway key sn gw gw' there there' h))
                (λ i. rw (typed, check_named_parent, there))
        ]
  ]

  abbrev pub ParentOk : ParentRef → Type 0
  ParentOk pr = (sn : String) × (pr.section_name ≡ some sn) × NamedOk pr sn

  same_section :
      (pr : ParentRef) (sn sn' : String)
      → pr.section_name ≡ some sn
      → pr.section_name ≡ some sn'
      → NamedOk pr sn'
      → NamedOk pr sn
  same_section pr sn sn' e e' h = let same : sn' ≡ sn = cc in rw (← same) h

  Checks-parent : (pr : ParentRef) → Checks (check_parent mgr hr pr) (ParentOk pr)
  unfolding check_parent
  Checks-parent pr = elim (Option-cases pr.section_name) [
    | inl missing ↦
        Checks-bad_ref
          ("sectionName not set for '"
            ⧺ ext.keyname (or_default hr.namespace pr.namespace ∷ pr.name ∷ [])
            ⧺ "'")
          (speaks_left "sectionName not set for '" _
            (ground (arith, eq_iff "sectionName not set for '" "")))
          (λ ok. cc (missing, ok.1)) (λ i. rw (missing, check_parent))
    | inr (sn, there) ↦
        Checks-same
          (Checks-iff (Checks-named pr sn) (λ h. (sn, there, h))
            (λ (sn', there', h). same_section pr sn sn' there there' h))
          (λ i. rw (there, check_parent))
  ]

  Checks-parents : (prs : List ParentRef) → Checks (check_parents mgr hr prs) (All ParentOk prs)
  unfolding check_parents
  Checks-parents [] = Checks-done
  Checks-parents (pr ∷ prs) = Checks-then (Checks-parent pr) (Checks-parents prs)

  -- A route is accepted exactly when each of its parents names a section, is by its type a gateway,
  -- and is one that exists, each listener of which that has the section's name takes the route. (A
  -- section that no listener has is accepted.)
  pub validate_parents_iff :
      (validate_http_route_parent_refs mgr hr ≡ none) ↔ All ParentOk hr.parent_refs
  unfolding validate_http_route_parent_refs
  validate_parents_iff = verdict_iff (Checks-parents hr.parent_refs)
