-- ===== src/Webhooks/Validate/Backends.antt =====
-- validateHTTPRouteBackendRefs accepts exactly the routes whose backends and extensions are services
-- that exist and, for the backends, that the route may refer to.
use bigip_kubernetes_gateway.Base.{
  String, ◌≡◌, ◌≢◌, ◌↔◌, inl, inr, true, false, Option, none, some, List, [], ◌∷◌, ◌==◌, eq_iff,
  arith, Bool-cases, Option-cases, or_default,
}
use bigip_kubernetes_gateway.Base.Lists.{All}
use bigip_kubernetes_gateway.Base.Text.{◌⧺◌}
use bigip_kubernetes_gateway.Api.{
  HttpRoute, BackendRef, RouteRule, RouteFilter, ExtensionRef, Service, ReferenceGrant, core_group,
}
use bigip_kubernetes_gateway.External.{External}
use bigip_kubernetes_gateway.Webhooks.Manager.{Manager, listed, object_key_from_string}
use bigip_kubernetes_gateway.Webhooks.Validate.{
  validate_service_type, type_error, check_backend, check_backends, check_rule_backends,
  check_extension, check_filters, check_rule_filters, validate_http_route_backend_refs,
}
use bigip_kubernetes_gateway.Webhooks.Validate.Grants.{can_refer}
use bigip_kubernetes_gateway.Webhooks.Validate.Messages.{speaks_left, service_error}
use bigip_kubernetes_gateway.Webhooks.Validate.Checks.{
  Checks, Checks-passing, Checks-bad_ref, Checks-bad_type, verdict_iff, Checks-then, Checks-done,
}

no_service : (key : String) → "no backRef found: '" ⧺ key ≢ ""
no_service key =
    speaks_left "no backRef found: '" key (ground (arith, eq_iff "no backRef found: '" ""))

module _ ⦃ext : External⦄ where
  -- The type of a reference is that of a service: group "" and kind "Service", both by default.
  pub validate_service_type_iff :
      (group kind : Option String)
      → (validate_service_type group kind ≡ none)
        ↔ ((or_default core_group group ≡ core_group) × (or_default "Service" kind ≡ "Service"))
  unfolding validate_service_type type_error
  validate_service_type_iff group kind = ground (
    arith,
    eq_iff (or_default core_group group) core_group,
    eq_iff (or_default "Service" kind) "Service",
  )

module _ ⦃ext : External⦄ (mgr : Manager) (rgs : List ReferenceGrant) (hr : HttpRoute) where
  abbrev pub key_of : Option String → String → String
  key_of ns name = ext.keyname (or_default hr.namespace ns ∷ name ∷ [])

  abbrev pub BackendOk : BackendRef → Type 0
  BackendOk br =
      (validate_service_type br.group br.kind ≡ none)
      × ((svc : Service) × (mgr.get_service (object_key_from_string (key_of br.namespace br.name))
            ≡ some svc)
          × (can_refer rgs hr.meta svc.meta ≡ true))

  refuses :
      {o : Option Service} (svc : Service)
      → o ≡ some svc
      → can_refer rgs hr.meta svc.meta ≡ false
      → ¬ ((s : Service) × (o ≡ some s) × (can_refer rgs hr.meta s.meta ≡ true))
  refuses svc there no_ (s, found, yes_) =
      let same : s ≡ svc = cc in
      let y : can_refer rgs hr.meta svc.meta ≡ true = rw (← same) yes_ in cc

  Checks-backend : (br : BackendRef) → Checks (check_backend mgr rgs hr br) (BackendOk br)
  unfolding check_backend
  Checks-backend br = elim (Option-cases (validate_service_type br.group br.kind)) [
    | inr (err, bad) ↦
        Checks-bad_type err (service_error br.group br.kind bad) (λ ok. cc (bad, ok.0))
          (λ i. rw (bad, check_backend))
    | inl typed ↦
        let found = mgr.get_service (object_key_from_string (key_of br.namespace br.name)) in
        let msg = "no backRef found: '" ⧺ key_of br.namespace br.name ⧺ "'" in
        elim (Option-cases found) [
          | inl missing ↦
              Checks-bad_ref msg (no_service _) (λ ok. cc (missing, ok.1.1))
                (λ i. rw (typed, missing, check_backend))
          | inr (svc, there) ↦ elim (Bool-cases (can_refer rgs hr.meta svc.meta)) [
            | inl may ↦
                Checks-passing (typed, (svc, there, may))
                  (λ i. rw (typed, there, may, check_backend))
            | inr not_ ↦
                Checks-bad_ref msg (no_service _) (λ ok. refuses svc there not_ ok.1)
                  (λ i. rw (typed, there, not_, check_backend))
          ]
        ]
  ]

  extension_same :
      (er er' : ExtensionRef) (svc : Service)
      → er ≡ er'
      → validate_service_type (some er.group) (some er.kind) ≡ none
      → mgr.get_service (object_key_from_string (key_of none er.name)) ≡ some svc
      → (validate_service_type (some er'.group) (some er'.kind) ≡ none)
        × ((s : Service) × (mgr.get_service (object_key_from_string (key_of none er'.name))
              ≡ some s))
  extension_same er er' svc e typed there = rw (← e) (typed, (svc, there))

  Checks-backends :
      (brs : List BackendRef) → Checks (check_backends mgr rgs hr brs) (All BackendOk brs)
  unfolding check_backends
  Checks-backends [] = Checks-done
  Checks-backends (br ∷ brs) = Checks-then (Checks-backend br) (Checks-backends brs)

  abbrev pub ExtensionOk : RouteFilter → Type 0
  ExtensionOk fl =
      (er : ExtensionRef)
      → fl.type ≡ "ExtensionRef"
      → fl.extension_ref ≡ some er
      → (validate_service_type (some er.group) (some er.kind) ≡ none)
        × ((svc : Service) × (mgr.get_service (object_key_from_string (key_of none er.name))
              ≡ some svc))

  Checks-extension :
      (fl : RouteFilter) → Checks (check_extension mgr hr fl.type fl.extension_ref) (ExtensionOk fl)
  unfolding check_extension
  Checks-extension fl = elim (Option-cases fl.extension_ref) [
    | inl no_ref ↦ Checks-passing (λ er t e. cc (no_ref, e)) (λ i. rw (no_ref, check_extension))
    | inr (er, ref) ↦ elim (Bool-cases (fl.type == "ExtensionRef")) [
      | inr other ↦
          Checks-passing (λ er' t e. ground (arith, eq_iff fl.type "ExtensionRef"))
            (λ i. rw (ref, check_extension, other))
      | inl same ↦
          let t : fl.type ≡ "ExtensionRef" = (eq_iff fl.type "ExtensionRef").0 same in
          elim (Option-cases (validate_service_type (some er.group) (some er.kind))) [
            | inr (err, bad) ↦
                Checks-bad_type err (service_error (some er.group) (some er.kind) bad)
                  (λ ok. cc (bad, (ok er t ref).0)) (λ i. rw (ref, check_extension, same, bad))
            | inl typed ↦
                elim (Option-cases
                  (mgr.get_service (object_key_from_string (key_of none er.name)))) [
                    | inl missing ↦
                        Checks-bad_ref ("no backRef found: '" ⧺ key_of none er.name ⧺ "'")
                          (no_service _) (λ ok. cc (missing, (ok er t ref).1.1))
                          (λ i. rw (ref, check_extension, same, typed, missing))
                    | inr (svc, there) ↦
                        Checks-passing
                          (λ er' t' e. extension_same er er' svc (cc (ref, e)) typed there)
                          (λ i. rw (ref, check_extension, same, typed, there))
                  ]
          ]
    ]
  ]

  Checks-filters :
      (fls : List RouteFilter) → Checks (check_filters mgr hr fls) (All ExtensionOk fls)
  unfolding check_filters
  Checks-filters [] = Checks-done
  Checks-filters (fl ∷ fls) = Checks-then (Checks-extension fl) (Checks-filters fls)

  Checks-rule_backends :
      (rls : List RouteRule)
      → Checks (check_rule_backends mgr rgs hr rls) (All (λ rl. All BackendOk rl.backend_refs) rls)
  unfolding check_rule_backends
  Checks-rule_backends [] = Checks-done
  Checks-rule_backends (rl ∷ rls) =
      Checks-then (Checks-backends rl.backend_refs) (Checks-rule_backends rls)

  Checks-rule_filters :
      (rls : List RouteRule)
      → Checks (check_rule_filters mgr hr rls) (All (λ rl. All ExtensionOk rl.filters) rls)
  unfolding check_rule_filters
  Checks-rule_filters [] = Checks-done
  Checks-rule_filters (rl ∷ rls) = Checks-then (Checks-filters rl.filters) (Checks-rule_filters rls)

  -- With the grants listed, a route is accepted exactly when each backend of each rule is a service
  -- that exists and that the route may refer to, and each extension is a service that exists.
  pub validate_backends_iff :
      mgr.list_reference_grants ≡ listed rgs
      → (validate_http_route_backend_refs mgr hr ≡ none) ↔ (
          All (λ rl. All BackendOk rl.backend_refs) hr.rules
          × All (λ rl. All ExtensionOk rl.filters) hr.rules)
  unfolding validate_http_route_backend_refs
  validate_backends_iff e =
      rw (e, validate_http_route_backend_refs)
        (verdict_iff (Checks-then (Checks-rule_backends hr.rules) (Checks-rule_filters hr.rules)))
