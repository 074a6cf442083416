-- ===== src/Webhooks/Gateways/Certificates.antt =====
-- validateListenersTLSCertificateRefs accepts exactly the gateways whose HTTPS listeners have a TLS
-- configuration and, where they terminate TLS, certificates that exist and may be referred to.
use bigip_kubernetes_gateway.Base.{
  String, ◌≡◌, ◌≢◌, refl, ◌↔◌, inl, inr, true, false, Option, none, some, List, [], ◌∷◌, ◌==◌,
  eq_iff, arith, Bool-cases, Option-cases, or_default,
}
use bigip_kubernetes_gateway.Base.Lists.{All}
use bigip_kubernetes_gateway.Base.Text.{◌⧺◌}
use bigip_kubernetes_gateway.Api.{Gateway, Listener, ListenerTls, SecretRef, Secret, ReferenceGrant}
use bigip_kubernetes_gateway.External.{External}
use bigip_kubernetes_gateway.Cache.Secrets.{terminates}
use bigip_kubernetes_gateway.Webhooks.Manager.{Manager, listed, object_key_from_string}
use bigip_kubernetes_gateway.Webhooks.Validate.{validate_secret_type}
use bigip_kubernetes_gateway.Webhooks.Validate.Grants.{can_refer}
use bigip_kubernetes_gateway.Webhooks.Validate.Messages.{speaks_left, speaks_right, secret_error}
use bigip_kubernetes_gateway.Webhooks.Validate.Checks.{
  Checks, Checks-passing, Checks-bad_ref, Checks-bad_type, Checks-iff, Checks-same, Checks-then,
  Checks-done, verdict_iff,
}
use bigip_kubernetes_gateway.Webhooks.Gateways.{
  check_secret, check_certificate, check_certificates, check_tls, check_listener, check_listeners,
  validate_listeners_tls_certificate_refs,
}

module _ ⦃ext : External⦄ (mgr : Manager) (rgs : List ReferenceGrant) (gw : Gateway) where
  abbrev pub secret_key : SecretRef → String
  secret_key ref = ext.keyname (or_default gw.namespace ref.namespace ∷ ref.name ∷ [])

  -- A secret of type TLS that the gateway may refer to.
  abbrev pub SecretOk : Option Secret → Type 0
  SecretOk o =
      (scrt : Secret) × (o ≡ some scrt)
      × (can_refer rgs gw.meta scrt.meta ≡ true)
      × (scrt.type ≡ "kubernetes.io/tls")

  abbrev pub CertificateOk : SecretRef → Type 0
  CertificateOk ref =
      (validate_secret_type ref.group ref.kind ≡ none)
      × SecretOk (mgr.get_secret (object_key_from_string (secret_key ref)))

  abbrev pub TlsOk : Option ListenerTls → Type 0
  TlsOk o =
      (tls : ListenerTls) × (o ≡ some tls)
      × (terminates tls.mode ≡ true → All CertificateOk tls.certificate_refs)

  abbrev pub ListenerOk : Listener → Type 0
  ListenerOk ls = ls.protocol ≡ "HTTPS" → TlsOk ls.tls

  not_found : (kn : String) → "secret '" ⧺ kn ⧺ "' not found" ≢ ""
  not_found kn = speaks_left "secret '" _ (ground (arith, eq_iff "secret '" ""))

  wrong_type : (kn type : String) → kn ⧺ " invalid type '" ⧺ type ⧺ "'" ≢ ""
  wrong_type kn type =
      speaks_right kn _
        (speaks_left " invalid type '" _ (ground (arith, eq_iff " invalid type '" "")))

  refused_secret :
      (scrt s : Secret)
      → can_refer rgs gw.meta scrt.meta ≡ false
      → ◌≡◌ {A = Option Secret} (some scrt) (some s)
      → can_refer rgs gw.meta s.meta ≢ true
  refused_secret scrt s no_ e y =
      let same : s ≡ scrt = cc in
      let y' : can_refer rgs gw.meta scrt.meta ≡ true = rw (← same) y in cc

  untyped_secret :
      (scrt s : Secret)
      → (scrt.type == "kubernetes.io/tls") ≡ false
      → ◌≡◌ {A = Option Secret} (some scrt) (some s)
      → s.type ≢ "kubernetes.io/tls"
  untyped_secret scrt s no_ e t =
      let same : s ≡ scrt = cc in
      let t' : scrt.type ≡ "kubernetes.io/tls" = rw (← same) t in
      ground (arith, eq_iff scrt.type "kubernetes.io/tls")

  Checks-secret :
      (kn : String) (o : Option Secret) → Checks (check_secret mgr rgs gw kn o) (SecretOk o)
  unfolding check_secret
  Checks-secret kn none = Checks-bad_ref _ (not_found kn) (λ ok. cc (ok.1)) (λ i. refl)
  Checks-secret kn (some scrt) = elim (Bool-cases (can_refer rgs gw.meta scrt.meta)) [
    | inr no_ ↦
        Checks-bad_ref _ (not_found kn) (λ (s, e, y, t). refused_secret scrt s no_ e y)
          (λ i. rw no_)
    | inl may ↦ elim (Bool-cases (scrt.type == "kubernetes.io/tls")) [
      | inr no_ ↦
          Checks-bad_type _ (wrong_type kn scrt.type)
            (λ (s, e, y, t). untyped_secret scrt s no_ e t) (λ i. rw (may, no_))
      | inl typed ↦
          Checks-passing (scrt, refl, may, (eq_iff scrt.type "kubernetes.io/tls").0 typed)
            (λ i. rw (may, typed))
    ]
  ]

  Checks-certificate :
      (ref : SecretRef) → Checks (check_certificate mgr rgs gw ref) (CertificateOk ref)
  unfolding check_certificate
  Checks-certificate ref = elim (Option-cases (validate_secret_type ref.group ref.kind)) [
    | inr (err, bad) ↦
        Checks-bad_type err (secret_error ref.group ref.kind bad) (λ ok. cc (bad, ok.0))
          (λ i. rw (bad, check_certificate))
    | inl typed ↦
        Checks-same
          (Checks-iff
            (Checks-secret (secret_key ref)
              (mgr.get_secret (object_key_from_string (secret_key ref))))
            (λ h. (typed, h)) (λ h. h.1))
          (λ i. rw (typed, check_certificate))
  ]

  Checks-certificates :
      (refs : List SecretRef) → Checks (check_certificates mgr rgs gw refs) (All CertificateOk refs)
  unfolding check_certificates
  Checks-certificates [] = Checks-done
  Checks-certificates (ref ∷ refs) = Checks-then (Checks-certificate ref) (Checks-certificates refs)

  same_tls :
      (tls t : ListenerTls)
      → ◌≡◌ {A = Option ListenerTls} (some tls) (some t)
      → terminates tls.mode ≡ true
      → (terminates t.mode ≡ true → All CertificateOk t.certificate_refs)
      → All CertificateOk tls.certificate_refs
  same_tls tls t e y h = let same : t ≡ tls = cc in rw (← same) (h (rw same y))

  Checks-tls :
      (name : String) (o : Option ListenerTls) → Checks (check_tls mgr rgs gw name o) (TlsOk o)
  unfolding check_tls
  Checks-tls name none =
      Checks-bad_ref _
        (speaks_left "missing 'tls' in listener " name
          (ground (arith, eq_iff "missing 'tls' in listener " "")))
        (λ ok. cc (ok.1)) (λ i. refl)
  Checks-tls name (some tls) = elim (Bool-cases (terminates tls.mode)) [
    | inr passthrough ↦ Checks-passing (tls, refl, λ y. cc) (λ i. rw passthrough)
    | inl y ↦
        Checks-same
          (Checks-iff (Checks-certificates tls.certificate_refs) (λ h. (tls, refl, λ y'. h))
            (λ (t, e, h). same_tls tls t e y h))
          (λ i. rw y)
  ]

  Checks-listener : (ls : Listener) → Checks (check_listener mgr rgs gw ls) (ListenerOk ls)
  unfolding check_listener
  Checks-listener ls = elim (Bool-cases (ls.protocol == "HTTPS")) [
    | inr other ↦ Checks-passing (λ e. ground (arith, eq_iff ls.protocol "HTTPS")) (λ i. rw other)
    | inl same ↦
        Checks-same
          (Checks-iff (Checks-tls ls.name ls.tls) (λ h e. h)
            (λ h. h ((eq_iff ls.protocol "HTTPS").0 same)))
          (λ i. rw same)
  ]

  Checks-listeners :
      (lss : List Listener) → Checks (check_listeners mgr rgs gw lss) (All ListenerOk lss)
  unfolding check_listeners
  Checks-listeners [] = Checks-done
  Checks-listeners (ls ∷ lss) = Checks-then (Checks-listener ls) (Checks-listeners lss)

  -- With the grants listed, a gateway is accepted exactly when each of its HTTPS listeners has a TLS
  -- configuration and, if that terminates TLS, each certificate of it is by its type a secret, exists,
  -- may be referred to, and is of the type kubernetes.io/tls.
  pub validate_certificates_iff :
      mgr.list_reference_grants ≡ listed rgs
      → (validate_listeners_tls_certificate_refs mgr gw ≡ none) ↔ All ListenerOk gw.listeners
  unfolding validate_listeners_tls_certificate_refs
  validate_certificates_iff e =
      rw (e, validate_listeners_tls_certificate_refs) (verdict_iff (Checks-listeners gw.listeners))
