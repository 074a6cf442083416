-- ===== src/Startup/Tests.antt =====
-- Clusters with a gateway, where some of the resources cannot be listed.
use mathlib.Core.List.Memᴰ
use mathlib.Core.List.Memᴰ.{head, tail}
use bigip_kubernetes_gateway.Base.{inl, inr, some, String, ◌≡◌, refl, arith, none, [], ◌∷◌}
use bigip_kubernetes_gateway.Base.GoMap.{insert}
use bigip_kubernetes_gateway.Base.Text.{join}
use bigip_kubernetes_gateway.Api.{Gateway, gateway_group}
use bigip_kubernetes_gateway.External.{External}
use bigip_kubernetes_gateway.External.Sample.{sample}
use bigip_kubernetes_gateway.K8s.Nodes.{Unmarshalled, error}
use bigip_kubernetes_gateway.Cache.{empty_cache, get_gateway}
use bigip_kubernetes_gateway.Cache.GrantIndex.Reach.{IsIndexed-empty, Fits-empty}
use bigip_kubernetes_gateway.Startup.{
  listed, unlisted, Cluster, Synced, synced, mark_synced, not_started, ready, add_each, set_nodes,
  sync_listing, sync_namespaces, sync_core_v1_resources, sync_gateway_resources,
  check_and_wait_cache_started, after_wait, after_core, sync_all_resources,
}
use bigip_kubernetes_gateway.Startup.Listed.{FitsWith}
use bigip_kubernetes_gateway.Startup.Ends.{IsAnswer, IsDone, sync_all_resources-IsDone}
use bigip_kubernetes_gateway.Startup.Found.{IsUnique, get_gateway-sync_all_resources}
use bigip_kubernetes_gateway.Startup.Consistent.{IsSynced, sync_all_resources-IsSynced}

instance external : External
external = sample

abbrev unmarshal : String → Unmarshalled
unmarshal s = error "not used"

abbrev edge : Gateway
edge = record {
  meta = record { namespace = "front"; name = "edge"; group = gateway_group; kind = "Gateway" };
  class_name = "bigip";
  listeners = [];
  addresses = [];
}

abbrev cluster : Cluster
cluster = record {
  client = none;
  endpoints = listed [];
  services = listed [];
  namespaces = unlisted "no namespaces";
  nodes = listed [];
  secrets = listed [];
  classes = listed [];
  gateways = listed (edge ∷ []);
  routes = unlisted "no routes";
  grants = listed [];
}

abbrev before : Synced
before = record { store = empty_cache; nodes = [] }

abbrev after : Synced
after =
    mark_synced
      (record { store = record empty_cache { gateway = ("front/edge", edge) ∷ [] }; nodes = [] })

after_sync : sync_all_resources unmarshal cluster (not_started ∷ ready ∷ []) before ≡ synced after
unfolding external sync_all_resources after_core after_wait check_and_wait_cache_started
    sync_gateway_resources sync_core_v1_resources sync_namespaces sync_listing add_each insert join
after_sync = refl

room : FitsWith [] empty_cache
room f t = omega arith

synced_example : IsSynced after.store
synced_example =
    sync_all_resources-IsSynced unmarshal cluster (not_started ∷ ready ∷ []) before after
      (IsIndexed-empty, Fits-empty) room after_sync

only_edge : IsUnique edge (edge ∷ [])
only_edge g i e = elim (Memᴰ.cases_cons i) [ inl same ↦ same | inr j ↦ absurd (Memᴰ.not-nil j) ]

found_example : get_gateway "front/edge" after.store ≡ some edge
unfolding external check_and_wait_cache_started join
found_example =
    get_gateway-sync_all_resources edge unmarshal cluster (not_started ∷ ready ∷ []) [] (edge ∷ [])
      before after refl refl (head refl) only_edge refl after_sync

abbrev reachable : Cluster
reachable = record cluster { namespaces = listed []; gateways = unlisted "no gateways" }

ready-IsAnswer : IsAnswer ready
ready-IsAnswer e = cc e

ends_example : IsDone [] (sync_all_resources unmarshal reachable (not_started ∷ ready ∷ []) before)
unfolding set_nodes
ends_example =
    sync_all_resources-IsDone unmarshal reachable (not_started ∷ ready ∷ []) ready before [] [] []
      [] [] [] refl refl refl refl refl refl refl (tail (head refl)) ready-IsAnswer
