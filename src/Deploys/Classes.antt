-- ===== src/Deploys/Classes.antt =====
-- DeployForEvent declares the tenant of every class that it is given.
use mathlib.Core.List.Memᴰ
use mathlib.Core.List.Memᴰ.{Memᴰ}
use bigip_kubernetes_gateway.Base.{
  String, Bool, true, not, eq_iff, sym, ◌≡◌, refl, ap, ◌∙◌, inl, inr, Bool-cases, Option-cases,
  ◌==◌, Option, none, some, List, [], ◌∷◌, or_default,
}
use bigip_kubernetes_gateway.Base.Attempt.{done, >>=-eq-done}
use bigip_kubernetes_gateway.Base.GoMap.{
  GoMap, lookup, insert, lookup-insert, lookup-insert_same, HasDistinctKeys, insert-HasDistinctKeys,
}
use bigip_kubernetes_gateway.Base.Lists.{All}
use bigip_kubernetes_gateway.Json.{Json, text, object, members}
use bigip_kubernetes_gateway.Api.{GatewayClass}
use bigip_kubernetes_gateway.External.{External}
use bigip_kubernetes_gateway.As3.{tenant_of}
use bigip_kubernetes_gateway.As3.Declaration.{
  IsPlain, lookup-declaration_of, lookup-tenant_of_class, tenant_of-nil,
}
use bigip_kubernetes_gateway.K8s.Nodes.{NodeCache}
use bigip_kubernetes_gateway.Cache.{SigCache, get_gateway_class}
use bigip_kubernetes_gateway.Cache.Attached.{attached_gateways}
use bigip_kubernetes_gateway.Parser.{in_folder, parse_gateways, parse_class, parse_all_for_class}
use bigip_kubernetes_gateway.Parser.Services.{
  Partitions, parse_services, parse_class_related_services,
}
use bigip_kubernetes_gateway.Deployer.{DeployRequest, is_tenant}
use bigip_kubernetes_gateway.Deployer.Queues.{is_tenant-object}
use bigip_kubernetes_gateway.Deploys.Distinct.{declared}
use bigip_kubernetes_gateway.Deploys.{merge_configs, parse_classes, class_configs, deploy_for_event}
use bigip_kubernetes_gateway.Deploys.Merged.{
  All-insert, found_plain, lookup-merge_configs, merge_configs-HasDistinctKeys, All-merge_configs,
}
use bigip_kubernetes_gateway.Deploys.Pools.{
  parse_services_into-All, parse_services_into-HasDistinctKeys,
}

module _ ⦃ext : External⦄ (c : SigCache) where
  folder_plain : (rlt : GoMap Json) → lookup "class" (in_folder c rlt) ≡ none
  unfolding lookup
  folder_plain [] = refl
  folder_plain (r ∷ rlt) = refl

  class_plain :
      (gwc : Option GatewayClass) (f : GoMap (GoMap Json))
      → parse_class c gwc ≡ done f
      → lookup "class" f ≡ none
  unfolding parse_class lookup
  class_plain none f e = let same : [] ≡ f = cc in rw (← same) refl
  class_plain (some gwc) f e = elim (Bool-cases (not (gwc.controller_name == c.controller_name))) [
    | inl other ↦ let same : [] ≡ f = cc (rw other at e) in rw (← same) refl
    | inr owned ↦
        let (rlt, g, h) =
          >>=-eq-done (parse_gateways c (attached_gateways (some gwc) c) []) _ (rw owned at e) in
        let same : in_folder c rlt ≡ f = cc in rw (← same) (folder_plain rlt)
  ]

  -- The partition of a class is what was parsed for it.
  abbrev IsParsed : String → Partitions → Type 0
  IsParsed k cfgs =
      (f : GoMap (GoMap Json)) × (parse_all_for_class c k ≡ done f) × (lookup k cfgs ≡ some f)

  IsParsed-insert :
      (k n : String) (f : GoMap (GoMap Json)) (cfgs : Partitions)
      → parse_all_for_class c n ≡ done f
      → IsParsed k cfgs
      → IsParsed k (insert n f cfgs)
  IsParsed-insert k n f cfgs p (g, q, e) = elim (Bool-cases (n == k)) [
    | inl y ↦ (f, rw ((eq_iff n k).0 y) at p, lookup-insert n k f cfgs ∙ rw y refl)
    | inr other ↦ (g, q, lookup-insert n k f cfgs ∙ (rw other refl ∙ e))
  ]

  parse_classes-keeps :
      (k : String) (ns : List String) (cfgs out : Partitions)
      → IsParsed k cfgs
      → parse_classes c ns cfgs ≡ done out
      → IsParsed k out
  unfolding parse_classes
  parse_classes-keeps k [] cfgs out h e = let same : cfgs ≡ out = cc in rw (← same) h
  parse_classes-keeps k (n ∷ ns) cfgs out h e =
      let (f, p, g) = >>=-eq-done (parse_all_for_class c n) _ e in
      parse_classes-keeps k ns (insert n f cfgs) out (IsParsed-insert k n f cfgs p h) g

  parse_classes-listed :
      (k : String) (ns : List String) (cfgs out : Partitions)
      → Memᴰ k ns
      → parse_classes c ns cfgs ≡ done out
      → IsParsed k out
  unfolding parse_classes
  parse_classes-listed k [] cfgs out i e = absurd (Memᴰ.not-nil i)
  parse_classes-listed k (n ∷ ns) cfgs out i e =
      let (f, p, g) = >>=-eq-done (parse_all_for_class c n) _ e in
      elim (Memᴰ.cases_cons i) [
        | inl same ↦
            parse_classes-keeps k ns (insert n f cfgs) out
              (f, rw same p, rw same (lookup-insert_same n f cfgs)) g
        | inr j ↦ parse_classes-listed k ns (insert n f cfgs) out j g
      ]

  parse_classes-HasDistinctKeys :
      (ns : List String) (cfgs out : Partitions)
      → HasDistinctKeys cfgs
      → parse_classes c ns cfgs ≡ done out
      → HasDistinctKeys out
  unfolding parse_classes
  parse_classes-HasDistinctKeys [] cfgs out h e = let same : cfgs ≡ out = cc in rw (← same) h
  parse_classes-HasDistinctKeys (n ∷ ns) cfgs out h e =
      let (f, p, g) = >>=-eq-done (parse_all_for_class c n) _ e in
      parse_classes-HasDistinctKeys ns (insert n f cfgs) out (insert-HasDistinctKeys n f cfgs h) g

  parse_classes-All :
      (ns : List String) (cfgs out : Partitions)
      → All IsPlain cfgs
      → parse_classes c ns cfgs ≡ done out
      → All IsPlain out
  unfolding parse_classes parse_all_for_class
  parse_classes-All [] cfgs out h e = let same : cfgs ≡ out = cc in rw (← same) h
  parse_classes-All (n ∷ ns) cfgs out h e =
      let (f, p, g) = >>=-eq-done (parse_all_for_class c n) _ e in
      parse_classes-All ns (insert n f cfgs) out
        (All-insert n f cfgs (class_plain (get_gateway_class n c) f p) h) g

  module _ (is_ipv6 : String → Bool) (nodes : NodeCache) where
    -- What was parsed for a class and for the services, and the partition that is made of them.
    abbrev pub IsMade : List String → String → GoMap (GoMap Json) → Type 0
    IsMade classes k folders =
        (f : GoMap (GoMap Json)) × (pools : Partitions) × (parse_all_for_class c k ≡ done f)
        × (parse_class_related_services is_ipv6 nodes c classes ≡ done pools)
        × (folders ≡ or_default f (lookup k pools))

    class_configs-listed :
        (classes : List String) (k : String) (out : Partitions)
        → Memᴰ k classes
        → class_configs c is_ipv6 nodes classes ≡ done out
        → (folders : GoMap (GoMap Json)) × IsMade classes k folders
          × (lookup k out ≡ some folders)
          × (lookup "class" folders ≡ none)
          × HasDistinctKeys out
    unfolding class_configs parse_class_related_services parse_services
    class_configs-listed classes k out i e =
        let (ncfgs, p, g) = >>=-eq-done (parse_classes c classes []) _ e in
        let (pools, q, g') =
          >>=-eq-done (parse_class_related_services is_ipv6 nodes c classes) _ g in
        let same : merge_configs ncfgs pools ≡ out = cc in
        let (f, parsed, there) = parse_classes-listed k classes [] ncfgs i p in
        let found : lookup k out ≡ some (or_default f (lookup k pools)) =
          ap (lookup k) (sym same)
          ∙ lookup-merge_configs k f ncfgs pools
              (parse_services_into-HasDistinctKeys c is_ipv6 nodes _ [] pools tt q) there in
        let plain : All IsPlain out = rw (← same) (
          All-merge_configs ncfgs pools (parse_classes-All classes [] ncfgs tt p)
            (parse_services_into-All c is_ipv6 nodes _ [] pools tt q)) in
        (
          or_default f (lookup k pools),
          (f, pools, parsed, q, refl),
          found,
          found_plain k _ out plain found,
          rw (← same) (
              merge_configs-HasDistinctKeys ncfgs pools
                (parse_classes-HasDistinctKeys classes [] ncfgs tt p)),
        )

    -- A request of DeployForEvent has each of the classes as a tenant, and its folders are the partition
    -- that the related services make under this name, or, where they make none, what the class, its
    -- gateways and their routes are parsed to.
    pub deploy_for_event_declares :
        (classes : List String) (k : String) (r : DeployRequest)
        → Memᴰ k classes
        → deploy_for_event c is_ipv6 nodes classes ≡ done (some r)
        → (folders : GoMap (GoMap Json)) × IsMade classes k folders
          × (lookup k r.declaration ≡ some (object (members (tenant_of folders))))
          × (is_tenant (object (members (tenant_of folders))) ≡ true)
    unfolding deploy_for_event
    deploy_for_event_declares [] k r i e = absurd (Memᴰ.not-nil i)
    deploy_for_event_declares (n ∷ ns) k r i e =
        let (cfgs, f, g) = >>=-eq-done (class_configs c is_ipv6 nodes (n ∷ ns)) _ e in
        let (folders, made, there, plain, d) = class_configs-listed (n ∷ ns) k cfgs i f in
        (
          folders,
          made,
          ap (lookup k) (declared cfgs r g) ∙ lookup-declaration_of k cfgs folders d there,
          is_tenant-object (tenant_of folders) (lookup-tenant_of_class folders plain),
        )

    empty_class :
        (k : String) (f : GoMap (GoMap Json))
        → attached_gateways (get_gateway_class k c) c ≡ []
        → parse_all_for_class c k ≡ done f
        → f ≡ []
    unfolding parse_all_for_class parse_class parse_gateways
    empty_class k f h e = elim (Option-cases (get_gateway_class k c)) [
      | inl absent ↦ cc (rw absent at e)
      | inr (gwc, found) ↦
          let none_ : attached_gateways (some gwc) c ≡ [] = rw found at h in
          let e' = rw found at e in
          elim (Bool-cases (not (gwc.controller_name == c.controller_name))) [
            | inl other ↦ cc (rw other at e')
            | inr owned ↦ cc (rw (none_, parse_gateways) at (rw owned at e'))
          ]
    ]

    -- A class to which no gateway of the store belongs, and whose name no partition of the services has,
    -- is a tenant without folders in a request of DeployForEvent.
    pub deploy_for_event_empties :
        (classes : List String) (k : String) (r : DeployRequest) (pools : Partitions)
        → Memᴰ k classes
        → attached_gateways (get_gateway_class k c) c ≡ []
        → parse_class_related_services is_ipv6 nodes c classes ≡ done pools
        → lookup k pools ≡ none
        → deploy_for_event c is_ipv6 nodes classes ≡ done (some r)
        → lookup k r.declaration ≡ some (object (members (("class", text "Tenant") ∷ [])))
    deploy_for_event_empties classes k r pools i h q absent e =
        let (folders, (f, pools', p, q', made), found, t) =
          deploy_for_event_declares classes k r i e in
        let same : pools' ≡ pools = cc in
        let here : folders ≡ f = made ∙ rw (same, absent) refl in
        let emptied : folders ≡ [] = here ∙ empty_class k f h p in
        found
        ∙ ap (λ f. some (object (members (tenant_of f)))) emptied
        ∙ ap (λ t. some (object (members t))) tenant_of-nil
