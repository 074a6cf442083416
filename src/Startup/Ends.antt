-- ===== src/Startup/Ends.antt =====
-- The synchronisation ends, once the manager's cache gives an answer.
use mathlib.Core.List.Memᴰ
use mathlib.Core.List.Memᴰ.{Memᴰ}
use bigip_kubernetes_gateway.Base.{
  String, true, ◌≡◌, refl, ◌∙◌, inl, inr, Option, none, some, List, [], ◌∷◌, returns, panics,
}
use bigip_kubernetes_gateway.Api.{Namespace, Service, Endpoints, Secret}
use bigip_kubernetes_gateway.External.{External}
use bigip_kubernetes_gateway.K8s.Nodes.{Node, NodeCache, Unmarshalled}
use bigip_kubernetes_gateway.Cache.{SigCache}
use bigip_kubernetes_gateway.Startup.{
  Listing, listed, unlisted, Cluster, Synced, Part, continue, sync_listing, set_nodes, sync_nodes,
  sync_namespaces, sync_core_v1_resources, sync_gateway_resources, Poll, not_started, ready, broken,
  Waiting, polling, passed, gave_up, check_and_wait_cache_started, SyncResult, synced, mark_synced,
  finish, after_wait, after_core, sync_all_resources,
}

-- A part that returns and keeps the cache of nodes.
abbrev Keeps : NodeCache → Part → Type 0
Keeps nodes m = (s : Synced) × (e : Option String) × (m ≡ returns (s, e)) × (s.nodes ≡ nodes)

sync_listing-Keeps {ℓ} :
    {A : Type ℓ} (put : A → SigCache → SigCache) (l : Listing A) (s : Synced)
    → Keeps s.nodes (sync_listing put l s)
unfolding sync_listing
sync_listing-Keeps put (listed as_) s = (_, _, refl, refl)
sync_listing-Keeps put (unlisted e) s = (_, _, refl, refl)

Keeps-continue :
    (nodes : NodeCache) (m : Part) (k : Synced → Part)
    → Keeps nodes m
    → ((s : Synced) → Keeps s.nodes (k s))
    → Keeps nodes (continue m k)
Keeps-continue nodes panics k (s, e, eq, same) h = cc eq
Keeps-continue nodes (returns (s, some e)) k (s', e', eq, same) h = (s, some e, refl, cc)
Keeps-continue nodes (returns (s, none)) k (s', e', eq, same) h =
    let (s2, e2, eq2, same2) = h s in let old : s.nodes ≡ nodes = cc in (s2, e2, eq2, same2 ∙ old)

-- A poll that is not the error that the cache has not started.
abbrev pub IsAnswer : Poll → Type 0
IsAnswer p = ¬ (p ≡ not_started)

waits-until_answer :
    (ps : List Poll) (p : Poll)
    → Memᴰ p ps
    → IsAnswer p
    → ¬ (check_and_wait_cache_started ps ≡ polling)
unfolding check_and_wait_cache_started
waits-until_answer [] p i a e = Memᴰ.not-nil i
waits-until_answer (not_started ∷ ps) p i a e = elim (Memᴰ.cases_cons i) [
  | inl same ↦ a same
  | inr j ↦ waits-until_answer ps p j a e
]
waits-until_answer (ready ∷ ps) p i a e = cc e
waits-until_answer (broken err ∷ ps) p i a e = cc e

-- The synchronisation is done, the store says so, and the cache of nodes is given.
abbrev pub IsDone : NodeCache → SyncResult → Type 0
IsDone nodes r =
    (s : Synced) × (r ≡ synced s) × (s.store.synced_at_start ≡ true) × (s.nodes ≡ nodes)

finish-IsDone : (nodes : NodeCache) (m : Part) → Keeps nodes m → IsDone nodes (finish m)
finish-IsDone nodes panics (s, e, eq, same) = cc eq
finish-IsDone nodes (returns (s', e')) (s, e, eq, same) =
    let old : s'.nodes ≡ nodes = cc in (mark_synced s', refl, refl, old)

module _ ⦃ext : External⦄ (unmarshal : String → Unmarshalled) (k : Cluster) where
  sync_gateway_resources-Keeps : (s : Synced) → Keeps s.nodes (sync_gateway_resources unmarshal k s)
  unfolding sync_gateway_resources
  sync_gateway_resources-Keeps s = Keeps-continue _ _ _ (sync_listing-Keeps _ k.classes s) (λ s1.
      Keeps-continue _ _ _ (sync_listing-Keeps _ k.gateways s1) (λ s2.
        Keeps-continue _ _ _ (sync_listing-Keeps _ k.routes s2)
          (λ s3. sync_listing-Keeps _ k.grants s3)))

  after_wait-IsDone :
      (w : Waiting) (s : Synced) → ¬ (w ≡ polling) → IsDone s.nodes (after_wait unmarshal k w s)
  unfolding after_wait
  after_wait-IsDone polling s n = absurd (n refl)
  after_wait-IsDone passed s n = finish-IsDone s.nodes _ (sync_gateway_resources-Keeps s)
  after_wait-IsDone (gave_up e) s n = (mark_synced s, refl, refl, refl)

  sync_core_v1_resources-returns :
      (s : Synced) (es : List Endpoints) (svcs : List Service) (nss : List Namespace)
      (ns : List Node) (secrets : List Secret) (nodes : NodeCache)
      → k.client ≡ none
      → k.endpoints ≡ listed es
      → k.services ≡ listed svcs
      → k.namespaces ≡ listed nss
      → k.nodes ≡ listed ns
      → set_nodes unmarshal ns s.nodes ≡ returns nodes
      → k.secrets ≡ listed secrets
      → (s' : Synced) × (sync_core_v1_resources unmarshal k s ≡ returns (s', none))
        × (s'.nodes ≡ nodes)
  unfolding sync_core_v1_resources sync_namespaces sync_listing sync_nodes
  sync_core_v1_resources-returns s es svcs nss ns secrets nodes c e1 e2 e3 e4 set e5 =
      rw c (rw e1 (rw e2 (rw e3 (rw e4 (rw set (rw e5 (_, refl, refl)))))))

  -- If the client can be made, the resources of the core can be listed, caching the listed nodes gives
  -- a cache and does not panic, and some poll of the manager's cache has another answer than that it
  -- has not started: the synchronisation ends, whether or not the resources of the gateway API can be
  -- listed, the store is marked as synchronised, and the cache of nodes is that one.
  pub sync_all_resources-IsDone :
      (polls : List Poll) (p : Poll) (s : Synced) (es : List Endpoints) (svcs : List Service)
      (nss : List Namespace) (ns : List Node) (secrets : List Secret) (nodes : NodeCache)
      → k.client ≡ none
      → k.endpoints ≡ listed es
      → k.services ≡ listed svcs
      → k.namespaces ≡ listed nss
      → k.nodes ≡ listed ns
      → set_nodes unmarshal ns s.nodes ≡ returns nodes
      → k.secrets ≡ listed secrets
      → Memᴰ p polls
      → IsAnswer p
      → IsDone nodes (sync_all_resources unmarshal k polls s)
  unfolding sync_all_resources after_core
  sync_all_resources-IsDone polls p s es svcs nss ns secrets nodes c e1 e2 e3 e4 set e5 i a =
      let (s', eq, same) =
        sync_core_v1_resources-returns s es svcs nss ns secrets nodes c e1 e2 e3 e4 set e5 in
      let (s2, ends, marked, kept) =
        after_wait-IsDone (check_and_wait_cache_started polls) s'
          (waits-until_answer polls p i a) in
      (s2, rw eq ends, marked, kept ∙ same)
