-- ===== src/Controllers/Tests.antt =====
-- A gateway is deleted, before and after the synchronisation at start.
use bigip_kubernetes_gateway.Base.{String, Bool, true, false, ◌≡◌, refl, some, [], ◌∷◌, returns}
use bigip_kubernetes_gateway.Base.GoMap.{lookup, insert, delete}
use bigip_kubernetes_gateway.Api.{Gateway, gateway_group}
use bigip_kubernetes_gateway.External.{External}
use bigip_kubernetes_gateway.External.Sample.{sample}
use bigip_kubernetes_gateway.K8s.Nodes.{Unmarshalled, error}
use bigip_kubernetes_gateway.Cache.{empty_cache, get_gateway, unset_gateway, get_gateway_class}
use bigip_kubernetes_gateway.Cache.Attached.{attached_gateways, related_services}
use bigip_kubernetes_gateway.As3.{declaration_of}
use bigip_kubernetes_gateway.Parser.{parse_all_for_class, parse_class}
use bigip_kubernetes_gateway.Parser.Services.{
  parse_services, parse_services_into, classes_services, parse_class_related_services,
}
use bigip_kubernetes_gateway.Deployer.Runs.{idle}
use bigip_kubernetes_gateway.Deploys.{parse_classes, class_configs, deploy_for_event, merge_configs}
use bigip_kubernetes_gateway.Controllers.{World, Event, gateway_event, absent, finished, enqueue}
use bigip_kubernetes_gateway.Controllers.Gateways.{reconcile_gateway, delete_gateway}
use bigip_kubernetes_gateway.Controllers.Cores.{reconcile}
use bigip_kubernetes_gateway.Controllers.Effects.{Effect, expected}
use bigip_kubernetes_gateway.Controllers.Reconciled.{reconcile-Effect}
use bigip_kubernetes_gateway.External.Sample.Lawful.{sample-IsLawful}
use bigip_kubernetes_gateway.Controllers.Requests.{Concerns, IsQueued, reconcile-IsQueued}

instance external : External
external = sample

abbrev no_ipv6 : String → Bool
no_ipv6 s = false

abbrev unmarshal : String → Unmarshalled
unmarshal s = error "not used"

abbrev edge : Gateway
edge = record {
  meta = record { namespace = "front"; name = "edge"; group = gateway_group; kind = "Gateway" };
  class_name = "bigip";
  listeners = [];
  addresses = [];
}

abbrev unsynced : World
unsynced = record {
  store = record empty_cache { gateway = ("front/edge", edge) ∷ [] };
  nodes = [];
  deployer = idle;
}

abbrev before : World
before = record unsynced { store = record unsynced.store { synced_at_start = true } }

abbrev after : World
after = record before {
  store = record before.store { gateway = [] };
  deployer = enqueue (some (record { declaration = declaration_of (("bigip", []) ∷ []) })) idle;
}

abbrev deletion : Event
deletion = gateway_event (record { namespace = "front"; name = "edge"; text = "front/edge" }) absent

deleted : reconcile no_ipv6 unmarshal deletion before ≡ returns (after, finished)
unfolding reconcile reconcile_gateway delete_gateway get_gateway unset_gateway lookup delete
    deploy_for_event class_configs parse_classes parse_all_for_class parse_class get_gateway_class
    insert parse_class_related_services classes_services related_services parse_services
    parse_services_into merge_configs attached_gateways
deleted = refl

effect_example : Effect (expected deletion before.store) false before after finished
effect_example = reconcile-Effect no_ipv6 unmarshal deletion before after finished deleted

queued_example : IsQueued no_ipv6 "bigip" before after
unfolding external get_gateway lookup
queued_example =
    reconcile-IsQueued sample-IsLawful no_ipv6 unmarshal deletion "bigip" before after refl refl
      (Concerns.old_gateway refl) deleted
