-- ===== src/System.antt =====
-- The controller as a whole (cmd/controller/main.go): the synchronisation at start, the reconcilers,
-- which share the store and the queue, and the deployer, which takes the queue. Each call and each round is one step, in any order: two reconcilers that run
-- at the same time and interleave their accesses of the store are not in the model.
pub mod Delivery
mod Tests
use bigip_kubernetes_gateway.Base.{
  String, Bool, true, false, not, if◌then◌else◌, ◌≡◌, refl, sym, ap, ◌∙◌, inl, inr, ◌⊎◌, Option,
  none, some, List, [], ◌∷◌, ◌++◌, Outcome, returns,
}
use bigip_kubernetes_gateway.External.{External, AllNone}
use bigip_kubernetes_gateway.K8s.Nodes.{Unmarshalled}
use bigip_kubernetes_gateway.Cache.{SigCache, empty_cache}
use bigip_kubernetes_gateway.Cache.GrantIndex.Reach.{
  Update, IsIndexed, Fits, apply-IsIndexed, IsIndexed-frame, IsIndexed-empty, Fits-empty,
}
use bigip_kubernetes_gateway.Startup.{Cluster, Poll, Synced, synced, sync_all_resources}
use bigip_kubernetes_gateway.Startup.Listed.{items_of, FitsWith, IsConsistent}
use bigip_kubernetes_gateway.Startup.Consistent.{sync_all_resources-IsSynced}
use bigip_kubernetes_gateway.Deployer.{DeployRequest, Backend, DeployState}
use bigip_kubernetes_gateway.Deployer.Devices.{Device}
use bigip_kubernetes_gateway.Deployer.Runs.{Answers, Round, idle}
use bigip_kubernetes_gateway.Deployer.Runs
use bigip_kubernetes_gateway.Controllers.{Event, Answer, World, enqueue}
use bigip_kubernetes_gateway.Controllers.Cores.{reconcile}
use bigip_kubernetes_gateway.Controllers.Effects.{
  waits, is_wellformed, update_of, apply_if, expected, Effect, IsDistinct,
}
use bigip_kubernetes_gateway.Controllers.Reconciled.{reconcile-Effect}

-- The state in which main starts them.
abbrev pub started : String → World
started controller_name = record {
  store = record empty_cache { controller_name = controller_name };
  nodes = [];
  deployer = idle;
}

module _ ⦃ext : External⦄ (is_ipv6 : String → Bool) (unmarshal : String → Unmarshalled)
    (b : Backend) where
  pub data Run : World → List Device → Type 0 where
    start : (controller_name : String) (ds : List Device) → Run (started controller_name) ds
    sync :
        {w : World} {ds : List Device} (k : Cluster) (polls : List Poll) (s : Synced)
        → Run w ds
        → sync_all_resources unmarshal k polls (record { store = w.store; nodes = w.nodes })
          ≡ synced s
        → FitsWith (items_of k.grants) w.store
        → Run (record w { store = s.store; nodes = s.nodes }) ds
    event :
        {w w' : World} {ds : List Device} (ev : Event) (a : Answer)
        → Run w ds
        → reconcile is_ipv6 unmarshal ev w ≡ returns (w', a)
        → Fits w'.store
        → Run w' ds
    round :
        {w : World} {s : DeployState} {ds ds' : List Device} (answers : Answers)
        → Run w ds
        → Round b answers w.deployer ds s ds'
        → Run (record w { deployer = s }) ds'

  started-IsConsistent : (controller_name : String) → IsConsistent (started controller_name).store
  started-IsConsistent n = (IsIndexed-frame empty_cache _ IsIndexed-empty refl refl, Fits-empty)

  applied-IsConsistent :
      (o : Option Update) (c d : SigCache)
      → IsConsistent c
      → Fits d
      → apply_if o c ≡ returns d
      → IsConsistent d
  applied-IsConsistent none c d h fits e = let same : c ≡ d = cc in rw (← same) h
  applied-IsConsistent (some u) c d (ix, room) fits e = (apply-IsIndexed u c d ix room e fits, fits)

  either_way :
      (P : Outcome SigCache → Type 0) (b : Bool) (x y : Outcome SigCache)
      → P x
      → P y
      → P (if b then x else y)
  either_way P true x y h k = h
  either_way P false x y h k = k

  expected-IsConsistent :
      (ev : Event) (c d : SigCache)
      → IsConsistent c
      → Fits d
      → expected ev c ≡ returns d
      → IsConsistent d
  expected-IsConsistent ev c d h fits =
      let P = λ (x : Outcome SigCache). (x ≡ returns d → IsConsistent d) in
      let same = applied-IsConsistent none c d h fits in
      let changed = applied-IsConsistent (update_of ev c) c d h fits in
      either_way P (not (is_wellformed ev)) _ _ same (
        either_way P (not (waits ev)) _ _ changed (either_way P c.synced_at_start _ _ changed same))

  -- The store of a run.
  pub Run-IsConsistent : {w : World} {ds : List Device} → Run w ds → IsConsistent w.store
  Run-IsConsistent (start n ds) = started-IsConsistent n
  Run-IsConsistent (sync {w} k polls s r e fits) =
      (sync_all_resources-IsSynced unmarshal k polls _ s (Run-IsConsistent r) fits e).0
  Run-IsConsistent (event {w} {w'} ev a r e fits) =
      expected-IsConsistent ev w.store w'.store (Run-IsConsistent r) fits
        (reconcile-Effect is_ipv6 unmarshal ev w w' a e).changes
  Run-IsConsistent (round answers r k) = Run-IsConsistent r

  queued_Reached :
      {s : DeployState} {ds : List Device} (o : Option DeployRequest)
      → IsDistinct o
      → Runs.Reached b s ds
      → Runs.Reached b (enqueue o s) ds
  queued_Reached none h r = r
  queued_Reached (some q) h r = Runs.Reached.request q h r

  -- The deployer of a run, as its own steps reach it.
  pub Run-deployer : {w : World} {ds : List Device} → Run w ds → Runs.Reached b w.deployer ds
  Run-deployer (start n ds) = Runs.Reached.start ds
  Run-deployer (sync k polls s r e fits) = Run-deployer r
  Run-deployer (event {w} {w'} ev a r e fits) =
      let (o, q, h) = (reconcile-Effect is_ipv6 unmarshal ev w w' a e).queued in
      rw q (queued_Reached o h (Run-deployer r))
  Run-deployer (round answers r k) = Runs.Reached.round answers (Run-deployer r) k
