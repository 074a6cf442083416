-- ===== src/System/Tests.antt =====
-- A run of the controller: the endpoints of a service go away, and the round that follows empties the
-- namespace on the one BIG-IP.
use bigip_kubernetes_gateway.Base.{
  String, Bool, false, ◌≡◌, refl, Option, none, some, List, [], ◌∷◌, returns,
}
use bigip_kubernetes_gateway.Base.GoMap.{lookup, delete, values}
use bigip_kubernetes_gateway.Base.Lists.{All, select}
use bigip_kubernetes_gateway.Json.{Json, object, members}
use bigip_kubernetes_gateway.External.{External, AllNone}
use bigip_kubernetes_gateway.External.Sample.{sample, merge_errors}
use bigip_kubernetes_gateway.External.Sample.Lawful.{merge_errors_iff}
use bigip_kubernetes_gateway.K8s.Nodes.{Unmarshalled, error}
use bigip_kubernetes_gateway.Cache.{unset_endpoints, get_services_with_namespace}
use bigip_kubernetes_gateway.Cache.GrantIndex.Reach.{IsIndexed, Fits-empty}
use bigip_kubernetes_gateway.Deployer.{DeployRequest, Backend, DeployState}
use bigip_kubernetes_gateway.Deployer.Devices.{Device}
use bigip_kubernetes_gateway.Deployer.Runs.{IsSound, Round, idle}
use bigip_kubernetes_gateway.Deployer.Delivery.{Holds}
use bigip_kubernetes_gateway.Deployer.Progress.{round_enabled, all_fine}
use bigip_kubernetes_gateway.As3.{declaration_of, tenant_of}
use bigip_kubernetes_gateway.As3.Declaration.{lookup-declaration_of_one, lookup-tenant_of_class}
use bigip_kubernetes_gateway.Deployer.Queues.{is_tenant-object}
use bigip_kubernetes_gateway.Deploys.{handle_backends, backend_keys, backend_configs}
use bigip_kubernetes_gateway.Controllers.{World, Event, endpoints_event, absent, finished, enqueue}
use bigip_kubernetes_gateway.Controllers.Cores.{reconcile, reconcile_endpoints}
use bigip_kubernetes_gateway.System.{Run, started, Run-deployer}
use bigip_kubernetes_gateway.System.Delivery.{Run-IsSound, event_delivered}

instance external : External
external = sample

abbrev no_ipv6 : String → Bool
no_ipv6 s = false

abbrev unmarshal : String → Unmarshalled
unmarshal s = error "not used"

abbrev backend : Backend
backend = record { deep_equal = λ a b. false; merge_errors = merge_errors }

merge_errors-AllNone : (errs : List (Option String)) → merge_errors errs ≡ none → AllNone errs
merge_errors-AllNone errs = (merge_errors_iff errs).0

abbrev gone : Event
gone = endpoints_event (record { namespace = "ns"; name = "web"; text = "ns/web" }) absent

abbrev emptied : DeployRequest
emptied = record { declaration = declaration_of (("ns", []) ∷ []) }

abbrev after : World
after = record (started "f5.io/gateway") { deployer = enqueue (some emptied) idle }

gone_run : reconcile no_ipv6 unmarshal gone (started "f5.io/gateway") ≡ returns (after, finished)
unfolding reconcile reconcile_endpoints unset_endpoints delete handle_backends
    get_services_with_namespace values select backend_keys backend_configs
gone_run = refl

first-Run : Run no_ipv6 unmarshal backend (started "f5.io/gateway") ([] ∷ [])
first-Run = Run.start "f5.io/gateway" ([] ∷ [])

after-Run : Run no_ipv6 unmarshal backend after ([] ∷ [])
after-Run = Run.event gone finished first-Run gone_run Fits-empty

system_example : IsIndexed after.store × IsSound backend after.deployer ([] ∷ [])
system_example = Run-IsSound no_ipv6 unmarshal backend merge_errors-AllNone after-Run

abbrev a_round :
    (s : DeployState) × (ds : List Device) × Round backend
      (λ body. all_fine ([] ∷ []))
      after.deployer
      ([] ∷ [])
      s
      ds
    × (s.pending ≡ [])
a_round =
    round_enabled backend merge_errors-AllNone emptied []
      (Run-deployer no_ipv6 unmarshal backend after-Run) refl

abbrev empty_tenant : Json
empty_tenant = object (members (tenant_of []))

delivered_example : All (Holds backend "ns" empty_tenant) a_round.1
unfolding lookup
delivered_example =
    event_delivered no_ipv6 unmarshal backend merge_errors-AllNone gone finished emptied "ns"
      empty_tenant first-Run gone_run Fits-empty refl a_round.2 (refl, tt)
      (lookup-declaration_of_one "ns" [])
      (is_tenant-object (tenant_of []) (lookup-tenant_of_class [] refl))
