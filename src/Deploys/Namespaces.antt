-- ===== src/Deploys/Namespaces.antt =====
-- HandleBackends declares the tenant of its namespace.
use mathlib.Core.List.Memᴰ.{Memᴰ, head, tail}
use bigip_kubernetes_gateway.Base.{
  String, Bool, true, false, ◌≡◌, refl, ap, ◌∙◌, inl, inr, ◌==◌, eq_iff, eq_refl, none, some, List,
  [], ◌∷◌, ◌++◌, or_default, Option-cases, Outcome-cases, Outcome, returns, panics,
}
use bigip_kubernetes_gateway.Base.Attempt.{done, of_outcome, >>=-eq-done}
use bigip_kubernetes_gateway.Base.GoMap.{GoMap, lookup, insert, lookup-insert, values}
use bigip_kubernetes_gateway.Base.Lists.{All, Mem_of_select}
use bigip_kubernetes_gateway.Base.Text.{split, split-join, ◌⧺◌}
use bigip_kubernetes_gateway.Json.{Json, object, members}
use bigip_kubernetes_gateway.Api.{Gateway, Service}
use bigip_kubernetes_gateway.External.{External, IsLawful}
use bigip_kubernetes_gateway.As3.{declaration_of, tenant_of}
use bigip_kubernetes_gateway.As3.Declaration.{
  lookup-declaration_of_one, lookup-declaration_of_other, lookup-tenant_of_class,
}
use bigip_kubernetes_gateway.K8s.Nodes.{NodeCache}
use bigip_kubernetes_gateway.Cache.{
  SigCache, object_key, get_gateway_class, get_services_with_namespace,
}
use bigip_kubernetes_gateway.Cache.Impact.{get_root_gateways}
use bigip_kubernetes_gateway.Cache.Refer.Keys.{IsName}
use bigip_kubernetes_gateway.Parser.Services.{
  Partitions, put_pool, pool, parse_members_from, parse_service, parse_services_into,
  parse_services,
}
use bigip_kubernetes_gateway.Deployer.{DeployRequest, is_tenant}
use bigip_kubernetes_gateway.Deployer.Queues.{is_tenant-object}
use bigip_kubernetes_gateway.Deploys.Distinct.{declared}
use bigip_kubernetes_gateway.Deploys.{root_keys, backend_keys, backend_configs, handle_backends}

-- Nothing yet, or one partition.
pub data IsIn (ns : String) : Partitions → Type 0 where
  nothing_yet : IsIn ns []
  one : {f : GoMap (GoMap Json)} → lookup "class" f ≡ none → IsIn ns ((ns, f) ∷ [])

no_class :
    (v : GoMap Json) (f : GoMap (GoMap Json))
    → lookup "class" f ≡ none
    → lookup "class" (insert "serviceMain" v f) ≡ none
no_class v f h = lookup-insert "serviceMain" "class" v f ∙ h

abbrev IsOne : String → Partitions → Type 0
IsOne ns cfgs = (f : GoMap (GoMap Json)) × (lookup "class" f ≡ none) × (cfgs ≡ (ns, f) ∷ [])

put_pool-IsOne :
    (ns n : String) (p : Json) (cfgs : Partitions) → IsIn ns cfgs → IsOne ns (put_pool ns n p cfgs)
unfolding put_pool lookup insert
put_pool-IsOne ns n p [] nothing_yet =
    (_, no_class (insert ("ltm/pool/" ⧺ n) p []) (("serviceMain", []) ∷ []) refl, refl)
put_pool-IsOne ns n p (q ∷ l) (one {f} h) =
    rw (eq_refl ns)
      (_, no_class (insert ("ltm/pool/" ⧺ n) p (or_default [] (lookup "serviceMain" f))) f h, refl)

IsIn-of_IsOne : (ns : String) (cfgs : Partitions) → IsOne ns cfgs → IsIn ns cfgs
IsIn-of_IsOne ns cfgs (f, h, e) = rw e (IsIn.one h)

returned :
    (m : Outcome (List String)) (keys : List String) → of_outcome m ≡ done keys → m ≡ returns keys
returned (returns l) keys e = let same : l ≡ keys = cc in ap returns same
returned panics keys e = cc e

module _ ⦃ext : External⦄ (c : SigCache) (is_ipv6 : String → Bool) (nodes : NodeCache)
    (ns : String) where
  -- What the services of the namespace that gateways lead to are parsed to, and what is made of it.
  abbrev pub IsMade : GoMap (GoMap Json) → Type 0
  IsMade folders =
      (keys : List String) × (pools : Partitions) × (backend_keys c
          (get_services_with_namespace ns c)
        ≡ returns keys)
      × (parse_services is_ipv6 nodes c keys ≡ done pools)
      × (folders ≡ or_default [] (lookup ns pools))

module _ ⦃ext : External⦄ (lawful : IsLawful ext) (c : SigCache) (is_ipv6 : String → Bool)
    (nodes : NodeCache) (ns : String) (ns_is : IsName ns) where
  -- The key of a service of the namespace.
  abbrev IsKey : String → Type 0
  IsKey key = (n : String) × IsName n × (key ≡ object_key ns n)

  split-key : (n : String) → IsName n → split "/" (object_key ns n) ≡ ns ∷ n ∷ []
  split-key n h =
      ap (λ s. split "/" s) (lawful.keyname-eq-join _ (ns_is.ne_empty, (h.ne_empty, tt)))
      ∙ split-join "/" ns (n ∷ []) ns_is.lacks (h.lacks, tt)

  parse_service-IsOne :
      (n : String) (cfgs d : Partitions)
      → IsIn ns cfgs
      → parse_service is_ipv6 nodes c (ns ∷ n ∷ []) cfgs ≡ done d
      → IsOne ns d
  unfolding parse_service
  parse_service-IsOne n cfgs d h e =
      let (mbs, _, f) = >>=-eq-done (parse_members_from is_ipv6 nodes c ns n) _ e in
      let same : put_pool ns n (pool mbs) cfgs ≡ d = cc in
      rw (← same) (put_pool-IsOne ns n (pool mbs) cfgs h)

  -- One service of the loop.
  parse_key-IsOne :
      (key : String) (cfgs d : Partitions)
      → IsKey key
      → IsIn ns cfgs
      → parse_service is_ipv6 nodes c (split "/" key) cfgs ≡ done d
      → IsOne ns d
  parse_key-IsOne key cfgs d (n, is, eq) h e =
      let same : split "/" key ≡ ns ∷ n ∷ [] = ap (λ k. split "/" k) eq ∙ split-key n is in
      parse_service-IsOne n cfgs d h (rw same at e)

  parse_services_into-IsOne :
      (keys : List String) (cfgs d : Partitions)
      → All IsKey keys
      → IsOne ns cfgs
      → parse_services_into is_ipv6 nodes c keys cfgs ≡ done d
      → IsOne ns d
  unfolding parse_services_into
  parse_services_into-IsOne [] cfgs d k h e = let same : cfgs ≡ d = cc in rw (← same) h
  parse_services_into-IsOne (key ∷ keys) cfgs d (k, ks) h e =
      let (cfgs', f, g) = >>=-eq-done (parse_service is_ipv6 nodes c (split "/" key) cfgs) _ e in
      parse_services_into-IsOne keys cfgs' d ks
        (parse_key-IsOne key cfgs cfgs' k (IsIn-of_IsOne ns cfgs h) f) g

  backend_configs-IsOne :
      (keys : List String) (d : Partitions)
      → All IsKey keys
      → backend_configs c is_ipv6 nodes ns keys ≡ done d
      → IsOne ns d
  unfolding backend_configs parse_services parse_services_into lookup
  backend_configs-IsOne [] d k e = ([], refl, cc)
  backend_configs-IsOne (key ∷ keys) d (k, ks) e =
      let (cfgs', f, g) = >>=-eq-done (parse_service is_ipv6 nodes c (split "/" key) []) _ e in
      parse_services_into-IsOne keys cfgs' d ks (parse_key-IsOne key [] cfgs' k IsIn.nothing_yet f)
        g

  root_keys-All :
      (svc : Service) (gws : List Gateway)
      → IsKey (object_key svc.namespace svc.name)
      → All IsKey (root_keys c svc gws)
  unfolding root_keys
  root_keys-All svc [] k = tt
  root_keys-All svc (gw ∷ gws) k = elim (Option-cases (get_gateway_class gw.class_name c)) [
    | inl absent ↦ rw (absent, All) (root_keys-All svc gws k)
    | inr (gwc, found) ↦ rw (found, All) (k, root_keys-All svc gws k)
  ]

  All-append : (l m : List String) → All IsKey l → All IsKey m → All IsKey (l ++ m)
  All-append [] m h k = k
  All-append (a ∷ l) m (h, hs) k = (h, All-append l m hs k)

  key_of :
      ((svc : Service) → Memᴰ svc (values c.service) → IsName svc.name)
      → (svc : Service) → Memᴰ svc (get_services_with_namespace ns c)
      → IsKey (object_key svc.namespace svc.name)
  unfolding get_services_with_namespace
  key_of names svc i =
      let (j, same) = Mem_of_select (λ s. s.namespace == ns) (values c.service) i in
      (svc.name, names svc j, ap (λ n. object_key n svc.name) ((eq_iff svc.namespace ns).0 same))

  backend_keys-All :
      (svcs : List Service) (kn : List String)
      → ((svc : Service) → Memᴰ svc svcs → IsKey (object_key svc.namespace svc.name))
      → of_outcome (backend_keys c svcs) ≡ done kn
      → All IsKey kn
  unfolding backend_keys
  backend_keys-All [] kn h e = let same : [] ≡ kn = cc in rw (← same) tt
  backend_keys-All (svc ∷ svcs) kn h e = elim (Outcome-cases (get_root_gateways (svc ∷ []) c)) [
    | inl broken ↦ cc (rw (broken, of_outcome) at e)
    | inr (gws, found) ↦ elim (Outcome-cases (backend_keys c svcs)) [
      | inl broken ↦ cc (rw (found, broken, of_outcome) at e)
      | inr (rest, later) ↦
          let ks = backend_keys-All svcs rest (λ v i. h v (tail i)) (ap of_outcome later) in
          let same : root_keys c svc gws ++ rest ≡ kn = cc (rw (found, later, of_outcome) at e) in
          rw (← same) (All-append _ rest (root_keys-All svc gws (h svc (head refl))) ks)
    ]
  ]

  backend_configs-parsed :
      (keys : List String) (f : GoMap (GoMap Json))
      → backend_configs c is_ipv6 nodes ns keys ≡ done ((ns, f) ∷ [])
      → (pools : Partitions) × (parse_services is_ipv6 nodes c keys ≡ done pools)
        × (f ≡ or_default [] (lookup ns pools))
  unfolding backend_configs parse_services parse_services_into lookup
  backend_configs-parsed [] f e = ([], refl, cc)
  backend_configs-parsed (key ∷ keys) f e = ((ns, f) ∷ [], e, rw (eq_refl ns) refl)

  -- What a request of HandleBackends declares.
  declared_one :
      ((svc : Service) → Memᴰ svc (values c.service) → IsName svc.name)
      → (r : DeployRequest) → handle_backends c is_ipv6 nodes ns ≡ done (some r)
      → (f : GoMap (GoMap Json)) × IsMade c is_ipv6 nodes ns f
        × (lookup "class" f ≡ none)
        × (r.declaration ≡ declaration_of ((ns, f) ∷ []))
  unfolding handle_backends
  declared_one names r e =
      let (kn, e1, f) =
        >>=-eq-done (of_outcome (backend_keys c (get_services_with_namespace ns c))) _ e in
      let (cfgs, e2, g) = >>=-eq-done (backend_configs c is_ipv6 nodes ns kn) _ f in
      let (folders, plain, only) =
        backend_configs-IsOne kn cfgs (backend_keys-All _ kn (key_of names) e1) e2 in
      let (pools, parsed, made) = backend_configs-parsed kn folders (rw only at e2) in
      (
        folders,
        (
          kn,
          pools,
          returned (backend_keys c (get_services_with_namespace ns c)) kn e1,
          parsed,
          made,
        ),
        plain,
        declared cfgs r g ∙ ap declaration_of only,
      )

  -- If the namespace and the services of the store have names of Kubernetes: a request of
  -- HandleBackends has no tenant but the namespace.
  pub handle_backends_only :
      ((svc : Service) → Memᴰ svc (values c.service) → IsName svc.name)
      → (r : DeployRequest) (k : String) → handle_backends c is_ipv6 nodes ns ≡ done (some r)
      → ("class" == k) ≡ false
      → ("schemaVersion" == k) ≡ false
      → (ns == k) ≡ false
      → lookup k r.declaration ≡ none
  unfolding lookup
  handle_backends_only names r k e a b other =
      let (folders, made, plain, d) = declared_one names r e in
      rw d (lookup-declaration_of_other k ((ns, folders) ∷ []) (rw other refl) a b)

  -- If the namespace and the services of the store have names of Kubernetes: a request of
  -- HandleBackends has the namespace as a tenant, and its folders are what the services of the namespace
  -- that gateways lead to are parsed to, none if there is no such service.
  pub handle_backends_declares :
      ((svc : Service) → Memᴰ svc (values c.service) → IsName svc.name)
      → (r : DeployRequest) → handle_backends c is_ipv6 nodes ns ≡ done (some r)
      → (folders : GoMap (GoMap Json)) × IsMade c is_ipv6 nodes ns folders
        × (lookup ns r.declaration ≡ some (object (members (tenant_of folders))))
        × (is_tenant (object (members (tenant_of folders))) ≡ true)
  handle_backends_declares names r e =
      let (folders, made, plain, d) = declared_one names r e in
      (
        folders,
        made,
        ap (lookup ns) d ∙ lookup-declaration_of_one ns folders,
        is_tenant-object (tenant_of folders) (lookup-tenant_of_class folders plain),
      )
