-- ===== src/Cache/GrantIndex/Reach.antt =====
-- The updates of the store, and the states that they reach. The index follows the cached grants in
-- each of them, as long as no counter leaves the 256 values of an int8.
use mathlib.Core.List.Memᴰ.{Memᴰ}
use bigip_kubernetes_gateway.Base.{
  ◌+◌, ◌-◌, ◌<◌, ◌≤◌, String, ◌≡◌, refl, Option, none, some, arith, inl, inr, ◌==◌, Option-cases,
  Bool-cases, Outcome, returns,
}
use bigip_kubernetes_gateway.Base.GoMap.{
  lookup, insert, delete, lookup-insert, lookup-delete, HasDistinctKeys, insert-HasDistinctKeys,
  delete-HasDistinctKeys,
}
use bigip_kubernetes_gateway.Api.{
  Namespace, GatewayClass, Gateway, HttpRoute, Service, Endpoints, Secret, ReferenceGrant,
}
use bigip_kubernetes_gateway.External.{External}
use bigip_kubernetes_gateway.Grants.{set, unset}
use bigip_kubernetes_gateway.Grants.Counting.{value, weight, from_keys, value-set, value-unset}
use bigip_kubernetes_gateway.Grants.Sources.{Knows, set-Knows, set-Knows_new, unset-Knows}
use bigip_kubernetes_gateway.Cache.{
  SigCache, empty_cache, object_key, without_old, unset_found, set_reference_grant,
  unset_reference_grant, set_namespace, unset_namespace, set_gateway_class, unset_gateway_class,
  set_gateway, unset_gateway, set_http_route, unset_http_route, set_endpoints, unset_endpoints,
  set_service, unset_service, set_secret, unset_secret,
}
use bigip_kubernetes_gateway.Cache.GrantIndex.Totals.{
  total, weight_of, total-insert, total-delete, weight-le-total,
}

module _ ⦃ext : External⦄ where
  pub record IsIndexed (c : SigCache) : Type 0 where
    pub distinct : HasDistinctKeys c.reference_grant
    pub counted : (f t : String) → value f t c.ref_from_to ≡ total f t c.reference_grant
    pub known :
        (k : String) (rg : ReferenceGrant) (j : String)
        → lookup k c.reference_grant ≡ some rg
        → Memᴰ j (from_keys rg)
        → Knows c.ref_from_to j

  -- Every counter has room for its total.
  abbrev pub Fits : SigCache → Type 0
  Fits c = (f t : String) → total f t c.reference_grant < 256

  absurd_found : {rg : ReferenceGrant} {A : Type 0} → none ≡ some rg → A
  absurd_found e = cc

  pub IsIndexed-empty : IsIndexed empty_cache
  unfolding value lookup
  IsIndexed-empty = record {
    distinct = tt;
    counted = λ f t. refl;
    known = λ k rg j e i. absurd_found e;
  }

  module _ (c : SigCache) (ix : IsIndexed c) (fits : Fits c) where
    -- The index without a cached grant.
    value-without_old :
        (k f t : String)
        → value f t (without_old (lookup k c.reference_grant) c.ref_from_to)
            + weight_of f t (lookup k c.reference_grant)
          ≡ total f t c.reference_grant
    value-without_old k f t = elim (Option-cases (lookup k c.reference_grant)) [
      | inl missing ↦ rw missing (omega (arith, ix.counted f t))
      | inr (rg, found) ↦
          let le : weight f t rg ≤ total f t c.reference_grant =
            rw found at (weight-le-total f t k c.reference_grant) in
          let e : value f t (unset rg c.ref_from_to) ≡ value f t c.ref_from_to - weight f t rg =
            value-unset f t rg c.ref_from_to (omega (arith, ix.counted f t, fits f t))
              (λ g i. ix.known k rg g found i) (omega (arith, ix.counted f t)) in
          rw found (omega (arith, ix.counted f t, e))
    ]

    without_old-Knows :
        (o : Option ReferenceGrant) (j : String)
        → Knows c.ref_from_to j
        → Knows (without_old o c.ref_from_to) j
    without_old-Knows none j h = h
    without_old-Knows (some rg) j h = unset-Knows rg c.ref_from_to j h

    known_after :
        (rg : ReferenceGrant) (k k' : String) (rg' : ReferenceGrant) (j : String)
        → lookup k' (insert k rg c.reference_grant) ≡ some rg'
        → Memᴰ j (from_keys rg')
        → Knows (set rg (without_old (lookup k c.reference_grant) c.ref_from_to)) j
    known_after rg k k' rg' j e i = elim (Bool-cases (k == k')) [
      | inl same ↦
          let e' : some rg ≡ some rg' = rw same at (rw lookup-insert at e) in
          let same_grant : rg ≡ rg' = cc in set-Knows_new rg _ j (rw same_grant i)
      | inr other ↦
          let e' : lookup k' c.reference_grant ≡ some rg' = rw other at (rw lookup-insert at e) in
          set-Knows rg _ j (without_old-Knows _ j (ix.known k' rg' j e' i))
    ]

    still_there :
        (k k' : String) (rg' : ReferenceGrant)
        → lookup k' (delete k c.reference_grant) ≡ some rg'
        → lookup k' c.reference_grant ≡ some rg'
    still_there k k' rg' e = elim (Bool-cases (k == k')) [
      | inl same ↦ absurd_found (rw same at (rw lookup-delete at e))
      | inr other ↦ rw other at (rw lookup-delete at e)
    ]

    counted_after :
        (k : String) (rg : ReferenceGrant)
        → lookup k c.reference_grant ≡ some rg
        → (f t : String)
        → value f t (unset rg c.ref_from_to) ≡ total f t (delete k c.reference_grant)
    counted_after k rg found f t =
        let a = rw found at (value-without_old k f t) in
        let b = rw found at (total-delete f t k c.reference_grant ix.distinct) in
        omega (arith, a, b)

    set_reference_grant-IsIndexed :
        (rg : ReferenceGrant)
        → Fits (set_reference_grant (some rg) c)
        → IsIndexed (set_reference_grant (some rg) c)
    unfolding set_reference_grant
    set_reference_grant-IsIndexed rg next =
        let k = object_key rg.namespace rg.name in
        let old = without_old (lookup k c.reference_grant) c.ref_from_to in
        record {
          distinct = insert-HasDistinctKeys k rg c.reference_grant ix.distinct;
          counted = λ f t. omega (
            arith,
            next f t,
            value-without_old k f t,
            total-insert f t k rg c.reference_grant,
            value-set f t rg old,
          );
          known = λ k' rg' j e i. known_after rg k k' rg' j e i;
        }

    unset_reference_grant-IsIndexed :
        (keyname : String) → IsIndexed (unset_reference_grant keyname c)
    unfolding unset_reference_grant
    unset_reference_grant-IsIndexed keyname =
        elim (Option-cases (lookup keyname c.reference_grant)) [
          | inl missing ↦ rw (missing, unset_found) ix
          | inr (rg, found) ↦
              rw (found, unset_found)
                (record {
                  distinct = delete-HasDistinctKeys keyname c.reference_grant ix.distinct;
                  counted = λ f t. counted_after keyname rg found f t;
                  known = λ k rg' j e i.
                      unset-Knows rg c.ref_from_to j
                        (ix.known k rg' j (still_there keyname k rg' e) i);
                })
        ]

  -- The methods of the store that change it; a nil argument is the `none` of the option.
  pub data Update : Type 0 where
    namespace_set : Option Namespace → Update
    class_set : Option GatewayClass → Update
    gateway_set : Option Gateway → Update
    route_set : Option HttpRoute → Update
    endpoints_set : Option Endpoints → Update
    service_set : Option Service → Update
    secret_set : Option Secret → Update
    grant_set : Option ReferenceGrant → Update
    namespace_unset class_unset gateway_unset route_unset : String → Update
    endpoints_unset service_unset secret_unset grant_unset : String → Update

  unfoldable pub apply : Update → SigCache → Outcome SigCache
  apply (namespace_set o) c = returns (set_namespace o c)
  apply (class_set o) c = returns (set_gateway_class o c)
  apply (gateway_set o) c = returns (set_gateway o c)
  apply (route_set o) c = returns (set_http_route o c)
  apply (endpoints_set o) c = returns (set_endpoints o c)
  apply (service_set o) c = returns (set_service o c)
  apply (secret_set o) c = set_secret o c
  apply (grant_set o) c = returns (set_reference_grant o c)
  apply (namespace_unset k) c = returns (unset_namespace k c)
  apply (class_unset k) c = returns (unset_gateway_class k c)
  apply (gateway_unset k) c = returns (unset_gateway k c)
  apply (route_unset k) c = returns (unset_http_route k c)
  apply (endpoints_unset k) c = returns (unset_endpoints k c)
  apply (service_unset k) c = returns (unset_service k c)
  apply (secret_unset k) c = returns (unset_secret k c)
  apply (grant_unset k) c = returns (unset_reference_grant k c)

  -- The states that updates reach from the empty store, each with room in every counter.
  pub data Reached : SigCache → Type 0 where
    start : Reached empty_cache
    update : {c d : SigCache} (u : Update) → Reached c → apply u c ≡ returns d → Fits d → Reached d

  pub Fits-empty : Fits empty_cache
  Fits-empty f t = omega arith

  -- The grants and the index are all that the invariant reads.
  pub IsIndexed-frame :
      (c d : SigCache)
      → IsIndexed c
      → d.reference_grant ≡ c.reference_grant
      → d.ref_from_to ≡ c.ref_from_to
      → IsIndexed d
  IsIndexed-frame c d ix e g = record {
    distinct = rw e ix.distinct;
    counted = λ f t. rw (e, g) (ix.counted f t);
    known = λ k rg j found i. rw g (ix.known k rg j (rw e at found) i);
  }

  returned : {c d : SigCache} → returns c ≡ returns d → c ≡ d
  returned e = cc

  grant_step :
      (c d : SigCache)
      → IsIndexed c
      → Fits c
      → (rg : ReferenceGrant) → set_reference_grant (some rg) c ≡ d
      → Fits d
      → IsIndexed d
  grant_step c d ix fits rg e next =
      rw (← e) (set_reference_grant-IsIndexed c ix fits rg (rw e next))

  -- An update that returns keeps the invariant.
  pub apply-IsIndexed :
      (u : Update) (c d : SigCache)
      → IsIndexed c
      → Fits c
      → apply u c ≡ returns d
      → Fits d
      → IsIndexed d
  unfolding apply set_namespace unset_namespace set_gateway_class unset_gateway_class set_gateway
      unset_gateway set_http_route unset_http_route set_endpoints unset_endpoints set_service
      unset_service set_secret unset_secret set_reference_grant
  apply-IsIndexed (grant_set none) c d ix fits e next = rw (← returned e) ix
  apply-IsIndexed (grant_set (some rg)) c d ix fits e next =
      grant_step c d ix fits rg (returned e) next
  apply-IsIndexed (grant_unset k) c d ix fits e next =
      rw (← returned e) (unset_reference_grant-IsIndexed c ix fits k)
  apply-IsIndexed (secret_set none) c d ix fits e next = cc
  apply-IsIndexed (namespace_set none) c d ix fits e next = rw (← returned e) ix
  apply-IsIndexed u c d ix fits e next = IsIndexed-frame c d ix (ground arith) (ground arith)

  pub Reached-Fits : {c : SigCache} → Reached c → Fits c
  Reached-Fits start = Fits-empty
  Reached-Fits (update u r e fits) = fits

  pub Reached-IsIndexed : {c : SigCache} → Reached c → IsIndexed c
  Reached-IsIndexed start = IsIndexed-empty
  Reached-IsIndexed (update {c} {d} u r e fits) =
      apply-IsIndexed u c d (Reached-IsIndexed r) (Reached-Fits r) e fits
