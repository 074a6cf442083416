-- ===== src/Startup/Consistent.antt =====
-- The synchronisation leaves a consistent store.
use bigip_kubernetes_gateway.Base.{String, true, ◌≡◌, refl, none, some, List, returns, panics}
use bigip_kubernetes_gateway.External.{External}
use bigip_kubernetes_gateway.K8s.Nodes.{Unmarshalled}
use bigip_kubernetes_gateway.Cache.{SigCache}
use bigip_kubernetes_gateway.Cache.GrantIndex.Reach.{IsIndexed-frame}
use bigip_kubernetes_gateway.Startup.{
  Cluster, Synced, Part, add_class, add_gateway, add_route, sync_gateway_resources,
  check_and_wait_cache_started, Waiting, polling, passed, gave_up, Poll, synced, mark_synced,
  finish, after_wait, after_core, sync_all_resources,
}
use bigip_kubernetes_gateway.Startup.Listed.{
  items_of, FitsWith, Ready, IsConsistent, Ready-IsConsistent, Ensures, Ensures-then,
  sync_listing-Ready, sync_grants-IsConsistent, sync_core-Ready, if-Same,
}

module _ ⦃ext : External⦄ where
  -- A store that the reconcilers may use.
  abbrev pub IsSynced : SigCache → Type 0
  IsSynced c = IsConsistent c × (c.synced_at_start ≡ true)

module _ ⦃ext : External⦄ (unmarshal : String → Unmarshalled) (k : Cluster) where
  abbrev ReadyFor : Synced → Type 0
  ReadyFor s = Ready (items_of k.grants) s.store

  sync_gateway-IsConsistent :
      (s : Synced)
      → ReadyFor s
      → Ensures (λ s'. IsConsistent s'.store) (sync_gateway_resources unmarshal k s)
  unfolding sync_gateway_resources
  sync_gateway-IsConsistent s h =
      let weak : (s : Synced) → ReadyFor s → IsConsistent s.store =
        λ s r. Ready-IsConsistent (items_of k.grants) s.store r in
      Ensures-then ReadyFor (λ s'. IsConsistent s'.store) _ _ weak
        (sync_listing-Ready add_class _ (λ a c. if-Same _ c _ (refl, refl)) k.classes s h)
        (λ s1 h1.
          Ensures-then ReadyFor _ _ _ weak
            (sync_listing-Ready add_gateway _ (λ a c. (refl, refl)) k.gateways s1 h1)
            (λ s2 h2.
              Ensures-then ReadyFor _ _ _ weak
                (sync_listing-Ready add_route _ (λ a c. (refl, refl)) k.routes s2 h2)
                (λ s3 h3. sync_grants-IsConsistent k.grants s3 h3)))

  marked : (s : Synced) → IsConsistent s.store → IsSynced (mark_synced s).store
  marked s (ix, fits) = ((IsIndexed-frame s.store _ ix refl refl, fits), refl)

  finish-IsSynced :
      (m : Part) (s' : Synced)
      → Ensures (λ s. IsConsistent s.store) m
      → finish m ≡ synced s'
      → IsSynced s'.store
  finish-IsSynced panics s' h e = cc e
  finish-IsSynced (returns (s, err)) s' h e =
      let same : mark_synced s ≡ s' = cc in rw (← same) (marked s (h s err refl))

  after_wait-IsSynced :
      (v : Waiting) (s s' : Synced)
      → ReadyFor s
      → after_wait unmarshal k v s ≡ synced s'
      → IsSynced s'.store
  unfolding after_wait
  after_wait-IsSynced polling s s' h e = cc e
  after_wait-IsSynced passed s s' h e = finish-IsSynced _ s' (sync_gateway-IsConsistent s h) e
  after_wait-IsSynced (gave_up msg) s s' h e =
      let same : mark_synced s ≡ s' = cc in
      rw (← same) (marked s (Ready-IsConsistent (items_of k.grants) s.store h))

  after_core-IsSynced :
      (polls : List Poll) (m : Part) (s' : Synced)
      → Ensures ReadyFor m
      → after_core unmarshal k polls m ≡ synced s'
      → IsSynced s'.store
  unfolding after_core
  after_core-IsSynced polls panics s' h e = cc e
  after_core-IsSynced polls (returns (s, some err)) s' h e = cc e
  after_core-IsSynced polls (returns (s, none)) s' h e =
      after_wait-IsSynced (check_and_wait_cache_started polls) s s' (h s none refl) e

  -- If the index follows the cached grants, and every counter has room for them and for the listed
  -- ones: after a synchronisation that ends, whichever of its lists failed, the index follows the
  -- cached grants, with room in every counter, and the store is marked as synchronised.
  pub sync_all_resources-IsSynced :
      (polls : List Poll) (s s' : Synced)
      → IsConsistent s.store
      → FitsWith (items_of k.grants) s.store
      → sync_all_resources unmarshal k polls s ≡ synced s'
      → IsSynced s'.store
  unfolding sync_all_resources
  sync_all_resources-IsSynced polls s s' (ix, _) fits e =
      after_core-IsSynced polls _ s' (sync_core-Ready unmarshal k (items_of k.grants) s (ix, fits))
        e
