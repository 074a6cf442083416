-- ===== src/Startup.antt =====
-- internal/pkg/cache.go: SyncAllResources, what is read into the store when the controller starts. What
-- the API server and the manager's cache list is given; the store's lock is held throughout.
pub mod Listed
pub mod Consistent
pub mod Found
pub mod Ends
mod Tests
use bigip_kubernetes_gateway.Base.{
  String, Bool, true, ◌==◌, if◌then◌else◌, Option, none, some, List, [], ◌∷◌, Outcome, returns,
  panics, ◌>>=◌,
}
use bigip_kubernetes_gateway.Base.GoMap.{insert}
use bigip_kubernetes_gateway.Base.Text.{◌⧺◌}
use bigip_kubernetes_gateway.Api.{
  Namespace, GatewayClass, Gateway, HttpRoute, Service, Endpoints, Secret, ReferenceGrant, Object,
}
use bigip_kubernetes_gateway.External.{External}
use bigip_kubernetes_gateway.K8s.Nodes.{Node, NodeCache, Unmarshalled}
use bigip_kubernetes_gateway.K8s.Nodes
use bigip_kubernetes_gateway.Cache.{SigCache, object_key, set_reference_grant}

-- A List call: the items, or an error.
pub data Listing {ℓ} (A : Type ℓ) : Type ℓ where
  listed : List A → Listing A
  unlisted : String → Listing A

-- What the clients answer, with the error of NewForConfig.
pub record Cluster : Type 0 where
  pub client : Option String
  pub endpoints : Listing Endpoints
  pub services : Listing Service
  pub namespaces : Listing Namespace
  pub nodes : Listing Node
  pub secrets : Listing Secret
  pub classes : Listing GatewayClass
  pub gateways : Listing Gateway
  pub routes : Listing HttpRoute
  pub grants : Listing ReferenceGrant

-- The store and the cache of nodes.
pub record Synced : Type 0 where
  pub store : SigCache
  pub nodes : NodeCache

-- A part of the synchronisation, with the error that ended it.
abbrev pub Part : Type 0
Part = Outcome (Synced × Option String)

-- A part that goes on if there was no error.
abbrev pub continue : Part → (Synced → Part) → Part
continue panics k = panics
continue (returns (s, some e)) k = returns (s, some e)
continue (returns (s, none)) k = k s

abbrev pub over : Synced → SigCache → Synced
over s c = record s { store = c }

-- The items of a listing, one after the other, into the store.
unfoldable pub add_each {ℓ} :
    {A : Type ℓ} → (A → SigCache → SigCache) → List A → SigCache → SigCache
add_each put [] c = c
add_each put (a ∷ as_) c = add_each put as_ (put a c)

unfoldable pub sync_listing {ℓ} :
    {A : Type ℓ} → (A → SigCache → SigCache) → Listing A → Synced → Part
sync_listing put (listed as_) s = returns (over s (add_each put as_ s.store), none)
sync_listing put (unlisted e) s = returns (s, some e)

-- if err := ...; err != nil { return nil }, which leaves the nodes and the secrets out as well
abbrev pub then_unless {ℓ} : {A : Type ℓ} → Listing A → Part → Part → Part
then_unless (listed as_) go stop = go
then_unless (unlisted e) go stop = stop

module _ ⦃ext : External⦄ where
  abbrev pub add_endpoints : Endpoints → SigCache → SigCache
  add_endpoints eps c = record c {
    endpoints = insert (object_key eps.namespace eps.name) eps c.endpoints;
  }

  -- Listed objects have no kind: reflect.TypeOf supplies it. The group of "v1" is empty.
  abbrev pub typed : String → Object → Object
  typed kind o = record o { group = ""; kind = kind }

  abbrev pub add_service : Service → SigCache → SigCache
  add_service svc c = record c {
    service =
        insert (object_key svc.namespace svc.name) (record svc { meta = typed "Service" svc.meta })
          c.service;
  }

  abbrev pub add_namespace : Namespace → SigCache → SigCache
  add_namespace ns c = record c { namespace = insert ns.name ns c.namespace }

  abbrev pub add_secret : Secret → SigCache → SigCache
  add_secret scrt c = record c {
    secret =
        insert (object_key scrt.namespace scrt.name)
          (record scrt { meta = typed "Secret" scrt.meta }) c.secret;
  }

  -- A class of another controller is left out.
  abbrev pub add_class : GatewayClass → SigCache → SigCache
  add_class gwc c =
      if gwc.controller_name == c.controller_name
      then record c { gateway_class = insert gwc.name gwc c.gateway_class }
      else c

  abbrev pub add_gateway : Gateway → SigCache → SigCache
  add_gateway gw c = record c { gateway = insert (object_key gw.namespace gw.name) gw c.gateway }

  abbrev pub add_route : HttpRoute → SigCache → SigCache
  add_route hr c = record c {
    http_route = insert (object_key hr.namespace hr.name) hr c.http_route;
  }

  abbrev pub add_grant : ReferenceGrant → SigCache → SigCache
  add_grant rg c = set_reference_grant (some rg) c

-- An error of NodeCache.Set is dropped.
unfoldable pub set_nodes : (String → Unmarshalled) → List Node → NodeCache → Outcome NodeCache
set_nodes unmarshal [] nodes = returns nodes
set_nodes unmarshal (n ∷ ns) nodes = do r ← Nodes.set unmarshal n nodes; set_nodes unmarshal ns r.0

unfoldable pub sync_nodes : (String → Unmarshalled) → Listing Node → Synced → Part
sync_nodes unmarshal (listed ns) s = do
  nodes ← set_nodes unmarshal ns s.nodes
  returns (record s { nodes = nodes }, none)
sync_nodes unmarshal (unlisted e) s = returns (s, some e)

module _ ⦃ext : External⦄ (unmarshal : String → Unmarshalled) (k : Cluster) where
  -- From the namespaces on; a failed listing of them ends the part without an error.
  unfoldable pub sync_namespaces : Synced → Part
  sync_namespaces s =
      then_unless k.namespaces
        (continue (sync_listing add_namespace k.namespaces s) (λ s.
          continue (sync_nodes unmarshal k.nodes s) (λ s. sync_listing add_secret k.secrets s)))
        (returns (s, none))

  unfoldable pub sync_core_v1_resources : Synced → Part
  sync_core_v1_resources s = elim k.client [
    | some e ↦ returns (s, some e)
    | none ↦
        continue (sync_listing add_endpoints k.endpoints s)
          (λ s. continue (sync_listing add_service k.services s) (λ s. sync_namespaces s))
  ]

  unfoldable pub sync_gateway_resources : Synced → Part
  sync_gateway_resources s = continue (sync_listing add_class k.classes s) (λ s.
      continue (sync_listing add_gateway k.gateways s) (λ s.
        continue (sync_listing add_route k.routes s) (λ s. sync_listing add_grant k.grants s)))

-- What a call of the manager's cache answers while it is waited for.
pub data Poll : Type 0 where
  not_started ready : Poll
  broken : String → Poll

-- What the loop of checkAndWaitCacheStarted has come to after some polls.
pub data Waiting : Type 0 where
  polling passed : Waiting
  gave_up : String → Waiting

unfoldable pub check_and_wait_cache_started : List Poll → Waiting
check_and_wait_cache_started [] = polling
check_and_wait_cache_started (not_started ∷ ps) = check_and_wait_cache_started ps
check_and_wait_cache_started (ready ∷ ps) = passed
check_and_wait_cache_started (broken e ∷ ps) = gave_up ("failed to accessing mgr's cache: " ⧺ e)

-- What SyncAllResources does: it still waits, it ends the process, or it is done.
pub data SyncResult : Type 0 where
  blocked : Synced → SyncResult
  exits : String → SyncResult
  crashes : SyncResult
  synced : Synced → SyncResult

abbrev pub mark_synced : Synced → Synced
mark_synced s = record s { store = record s.store { synced_at_start = true } }

-- An error of the gateway part is logged.
abbrev pub finish : Part → SyncResult
finish (returns (s, e)) = synced (mark_synced s)
finish panics = crashes

-- The gateway part, once the loop that waits for the manager's cache has come to an end.
unfoldable pub after_wait :
    ⦃ext : External⦄ → (String → Unmarshalled) → Cluster → Waiting → Synced → SyncResult
after_wait unmarshal k polling s = blocked s
after_wait unmarshal k passed s = finish (sync_gateway_resources unmarshal k s)
after_wait unmarshal k (gave_up e) s = synced (mark_synced s)

-- An error of the core part ends the process.
unfoldable pub after_core :
    ⦃ext : External⦄ → (String → Unmarshalled) → Cluster → List Poll → Part → SyncResult
after_core unmarshal k polls panics = crashes
after_core unmarshal k polls (returns (s, some e)) = exits e
after_core unmarshal k polls (returns (s, none)) =
    after_wait unmarshal k (check_and_wait_cache_started polls) s

module _ ⦃ext : External⦄ (unmarshal : String → Unmarshalled) (k : Cluster)
    (polls : List Poll) where
  unfoldable pub sync_all_resources : Synced → SyncResult
  sync_all_resources s = after_core unmarshal k polls (sync_core_v1_resources unmarshal k s)
