-- ===== src/Startup/Found.antt =====
-- What the synchronisation reads is in the store.
use mathlib.Core.List.Memᴰ
use mathlib.Core.List.Memᴰ.{Memᴰ, head, tail}
use bigip_kubernetes_gateway.Base.{
  String, ◌≡◌, refl, ap, ◌∙◌, ◌==◌, eq_iff, inl, inr, Bool-cases, none, some, List, [], ◌∷◌,
  returns, panics,
}
use bigip_kubernetes_gateway.Base.GoMap.{lookup, lookup-insert, lookup-insert_same}
use bigip_kubernetes_gateway.Api.{GatewayClass, Gateway}
use bigip_kubernetes_gateway.External.{External}
use bigip_kubernetes_gateway.K8s.Nodes.{Unmarshalled}
use bigip_kubernetes_gateway.Cache.{SigCache, object_key, get_gateway, set_reference_grant}
use bigip_kubernetes_gateway.Startup.{
  Listing, listed, unlisted, Cluster, Synced, Part, continue, over, add_each, sync_listing,
  add_class, add_gateway, add_route, add_grant, sync_core_v1_resources, sync_gateway_resources,
  check_and_wait_cache_started, passed, Poll, synced, mark_synced, finish, after_wait, after_core,
  sync_all_resources,
}
use bigip_kubernetes_gateway.Startup.Listed.{Ensures, Ensures-continue, Ensures-returns}

module _ ⦃ext : External⦄ (gw : Gateway) where
  abbrev key : String
  key = object_key gw.namespace gw.name

  -- The gateway is in the store.
  abbrev IsThere : SigCache → Type 0
  IsThere c = lookup key c.gateway ≡ some gw

  -- No other gateway of a list has the key.
  abbrev pub IsUnique : List Gateway → Type 0
  IsUnique gws = (g : Gateway) → Memᴰ g gws → object_key g.namespace g.name ≡ key → g ≡ gw

  add_gateway-keeps :
      (g : Gateway) (c : SigCache)
      → (object_key g.namespace g.name ≡ key → g ≡ gw)
      → IsThere c
      → IsThere (add_gateway g c)
  add_gateway-keeps g c unique h = elim (Bool-cases (object_key g.namespace g.name == key)) [
    | inl y ↦
        let same : g ≡ gw = unique ((eq_iff (object_key g.namespace g.name) key).0 y) in
        lookup-insert (object_key g.namespace g.name) key g c.gateway ∙ (rw y refl ∙ ap some same)
    | inr n ↦ lookup-insert (object_key g.namespace g.name) key g c.gateway ∙ (rw n refl ∙ h)
  ]

  add_gateways-keep :
      (gws : List Gateway) (c : SigCache)
      → IsUnique gws
      → IsThere c
      → IsThere (add_each add_gateway gws c)
  unfolding add_each
  add_gateways-keep [] c u h = h
  add_gateways-keep (g ∷ gws) c u h =
      add_gateways-keep gws (add_gateway g c) (λ x i. u x (tail i))
        (add_gateway-keeps g c (u g (head refl)) h)

  add_gateways-IsThere :
      (gws : List Gateway) (c : SigCache)
      → Memᴰ gw gws
      → IsUnique gws
      → IsThere (add_each add_gateway gws c)
  unfolding add_each
  add_gateways-IsThere [] c i u = absurd (Memᴰ.not-nil i)
  add_gateways-IsThere (g ∷ gws) c i u = elim (Memᴰ.cases_cons i) [
    | inl same ↦
        add_gateways-keep gws (add_gateway g c) (λ x j. u x (tail j))
          (rw same (lookup-insert_same (object_key g.namespace g.name) g c.gateway))
    | inr j ↦ add_gateways-IsThere gws (add_gateway g c) j (λ x k. u x (tail k))
  ]

  add_each-keeps {ℓ} :
      {A : Type ℓ} (put : A → SigCache → SigCache)
      → ((a : A) (c : SigCache) → (put a c).gateway ≡ c.gateway)
      → (l : List A) (c : SigCache) → IsThere c
      → IsThere (add_each put l c)
  unfolding add_each
  add_each-keeps put same [] c h = h
  add_each-keeps put same (a ∷ l) c h =
      add_each-keeps put same l (put a c) (ap (lookup key) (same a c) ∙ h)

  sync_listing-keeps {ℓ} :
      {A : Type ℓ} (put : A → SigCache → SigCache)
      → ((a : A) (c : SigCache) → (put a c).gateway ≡ c.gateway)
      → (l : Listing A) (s : Synced) → IsThere s.store
      → Ensures (λ s'. IsThere s'.store) (sync_listing put l s)
  unfolding sync_listing
  sync_listing-keeps put same (listed as_) s h =
      Ensures-returns _ (over s (add_each put as_ s.store)) none
        (add_each-keeps put same as_ s.store h)
  sync_listing-keeps put same (unlisted e) s h = Ensures-returns _ s (some e) h

  -- A listing that did not fail goes on.
  Ensures-listed {ℓ} :
      {A : Type ℓ} (put : A → SigCache → SigCache) (l : Listing A) (as_ : List A) (s : Synced)
      (k : Synced → Part) (P : Synced → Type 0)
      → l ≡ listed as_
      → Ensures P (k (over s (add_each put as_ s.store)))
      → Ensures P (continue (sync_listing put l s) k)
  unfolding sync_listing
  Ensures-listed put (listed bs) as_ s k P e h = let same : bs ≡ as_ = cc in rw same h
  Ensures-listed put (unlisted err) as_ s k P e h = cc e

  gateways-Ensure :
      (unmarshal : String → Unmarshalled) (k : Cluster) (cs : List GatewayClass)
      (gws : List Gateway) (s : Synced)
      → k.classes ≡ listed cs
      → k.gateways ≡ listed gws
      → Memᴰ gw gws
      → IsUnique gws
      → Ensures (λ s'. IsThere s'.store) (sync_gateway_resources unmarshal k s)
  unfolding sync_gateway_resources set_reference_grant
  gateways-Ensure unmarshal k cs gws s e f i u = Ensures-listed add_class k.classes cs s _ _ e (
      Ensures-listed add_gateway k.gateways gws _ _ _ f (
        Ensures-continue (λ s'. IsThere s'.store) _ _
          (sync_listing-keeps add_route (λ a c. refl) k.routes _ (add_gateways-IsThere gws _ i u))
          (λ s1 h. sync_listing-keeps add_grant (λ a c. refl) k.grants s1 h)))

  finish-IsThere :
      (m : Part) (s' : Synced)
      → Ensures (λ s. IsThere s.store) m
      → finish m ≡ synced s'
      → IsThere s'.store
  finish-IsThere panics s' h e = cc e
  finish-IsThere (returns (s, err)) s' h e =
      let same : mark_synced s ≡ s' = cc in rw (← same) (h s err refl)

  after_core-IsThere :
      (unmarshal : String → Unmarshalled) (k : Cluster) (polls : List Poll) (cs : List GatewayClass)
      (gws : List Gateway) (m : Part) (s' : Synced)
      → k.classes ≡ listed cs
      → k.gateways ≡ listed gws
      → Memᴰ gw gws
      → IsUnique gws
      → check_and_wait_cache_started polls ≡ passed
      → after_core unmarshal k polls m ≡ synced s'
      → IsThere s'.store
  unfolding after_core after_wait
  after_core-IsThere unmarshal k polls cs gws panics s' e f i u p h = cc h
  after_core-IsThere unmarshal k polls cs gws (returns (s, some err)) s' e f i u p h = cc h
  after_core-IsThere unmarshal k polls cs gws (returns (s, none)) s' e f i u p h =
      finish-IsThere _ s' (gateways-Ensure unmarshal k cs gws s e f i u) (rw p at h)

  -- If the cache of the manager is ready, and the classes and the gateways can be listed: after a
  -- synchronisation that ends, a listed gateway, whose key no other listed gateway has, is in the
  -- store, whether or not the later lists failed.
  pub get_gateway-sync_all_resources :
      (unmarshal : String → Unmarshalled) (k : Cluster) (polls : List Poll) (cs : List GatewayClass)
      (gws : List Gateway) (s s' : Synced)
      → k.classes ≡ listed cs
      → k.gateways ≡ listed gws
      → Memᴰ gw gws
      → IsUnique gws
      → check_and_wait_cache_started polls ≡ passed
      → sync_all_resources unmarshal k polls s ≡ synced s'
      → get_gateway (object_key gw.namespace gw.name) s'.store ≡ some gw
  unfolding sync_all_resources get_gateway
  get_gateway-sync_all_resources unmarshal k polls cs gws s s' =
      after_core-IsThere unmarshal k polls cs gws (sync_core_v1_resources unmarshal k s) s'
