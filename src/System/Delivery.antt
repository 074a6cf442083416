-- ===== src/System/Delivery.antt =====
-- From an event to the BIG-IPs.
use bigip_kubernetes_gateway.Base.{
  String, Bool, ◌≡◌, sym, ap, ◌∙◌, true, Option, none, some, List, [], ◌∷◌, ◌++◌, returns,
}
use bigip_kubernetes_gateway.Base.GoMap.{lookup}
use bigip_kubernetes_gateway.Base.Lists.{All}
use bigip_kubernetes_gateway.External.{External, AllNone}
use bigip_kubernetes_gateway.Json.{Json}
use bigip_kubernetes_gateway.K8s.Nodes.{Unmarshalled}
use bigip_kubernetes_gateway.Cache.GrantIndex.Reach.{IsIndexed, Fits}
use bigip_kubernetes_gateway.Deployer.{DeployRequest, Backend, DeployState, is_tenant, posted}
use bigip_kubernetes_gateway.Deployer.Devices.{Device}
use bigip_kubernetes_gateway.Deployer.Runs.{Answers, Round, IsSound, Reached-IsSound}
use bigip_kubernetes_gateway.Deployer.Delivery.{Holds, round_delivers}
use bigip_kubernetes_gateway.Deployer.Queues.{merged_last, rest_distinct}
use bigip_kubernetes_gateway.Controllers.{Event, Answer, World, enqueue}
use bigip_kubernetes_gateway.Controllers.Cores.{reconcile}
use bigip_kubernetes_gateway.System.{Run, Run-IsConsistent, Run-deployer}

module _ ⦃ext : External⦄ (is_ipv6 : String → Bool) (unmarshal : String → Unmarshalled)
    (b : Backend)
    (merge-none : (errs : List (Option String)) → b.merge_errors errs ≡ none → AllNone errs) where
  -- In every run of the controller in which no counter of the index of grants overflows, and if
  -- MergeErrors is nil only for nils: the index follows the cached grants, every tenant of the
  -- deployer's cache is on every BIG-IP, and the waiting requests have distinct tenants.
  pub Run-IsSound :
      {w : World} {ds : List Device}
      → Run is_ipv6 unmarshal b w ds
      → IsIndexed w.store × IsSound b w.deployer ds
  Run-IsSound r = (
    (Run-IsConsistent is_ipv6 unmarshal b r).0,
    Reached-IsSound b merge-none (Run-deployer is_ipv6 unmarshal b r),
  )

  -- In every run, if MergeErrors is nil only for nils: when a reconciler has put a request into the
  -- queue, and every BIG-IP answers nil to the round that follows, then each tenant of that request is
  -- on every BIG-IP, whatever waited before it.
  pub event_delivered :
      {w w' : World} {ds ds' : List Device} {s : DeployState} {answers : Answers} (ev : Event)
      (a : Answer) (q : DeployRequest) (k : String) (t : Json)
      → Run is_ipv6 unmarshal b w ds
      → reconcile is_ipv6 unmarshal ev w ≡ returns (w', a)
      → Fits w'.store
      → w'.deployer ≡ enqueue (some q) w.deployer
      → (n : Round b answers w'.deployer ds s ds')
      → AllNone (answers (posted b n.first n.others w'.deployer.tenant_cache))
      → lookup k q.declaration ≡ some t
      → is_tenant t ≡ true
      → All (Holds b k t) ds'
  event_delivered {w} {w'} ev a q k t run e fits queued n fine h y =
      let reached = Run-deployer is_ipv6 unmarshal b (Run.event ev a run e fits) in
      let d = (Reached-IsSound b merge-none reached).distinct in
      let waiting : w.deployer.pending ++ q ∷ [] ≡ n.first ∷ n.others =
        sym (ap (λ s. s.pending) queued) ∙ n.waiting in
      round_delivers b merge-none reached n k t fine
        (merged_last k t w.deployer.pending q n.first n.others waiting
          (rest_distinct _ n.first n.others n.waiting d) h)
        y
