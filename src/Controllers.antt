-- ===== src/Controllers.antt =====
-- internal/controllers: the reconcilers, as functions of the controller's state, of the request that
-- the manager gives them and of what the API server answers to their Get.
pub mod Gateways
pub mod Cores
pub mod Effects
pub mod Reconciled
pub mod Agreement
pub mod Agreed
pub mod Guards
pub mod Requests
mod Tests
use bigip_kubernetes_gateway.Base.{
  String, Option, none, some, List, [], ◌∷◌, ◌++◌, Outcome, returns, panics,
}
use bigip_kubernetes_gateway.Base.Attempt.{Attempt, done, fails, breaks}
use bigip_kubernetes_gateway.Cache.{SigCache}
use bigip_kubernetes_gateway.Api.{
  Namespace, GatewayClass, Gateway, HttpRoute, Service, Endpoints, Secret, ReferenceGrant,
}
use bigip_kubernetes_gateway.K8s.Nodes.{Node, NodeCache}
use bigip_kubernetes_gateway.Deployer.{DeployRequest, DeployState}

-- ctrl.Request, with what NamespacedName.String says of it.
pub record Request : Type 0 where
  pub namespace : String
  pub name : String
  pub text : String

-- What Client.Get answers: the object, that there is none, or another error.
pub data Fetched {ℓ} (A : Type ℓ) : Type ℓ where
  got : A → Fetched A
  absent : Fetched A
  failed : String → Fetched A

-- What Reconcile returns: nothing to do, another try after a while, or an error.
pub data Answer : Type 0 where
  finished requeue : Answer
  error : String → Answer

-- The package variables ActiveSIGs and NodeCache, and the deployer with the queue PendingDeploys.
pub record World : Type 0 where
  pub store : SigCache
  pub nodes : NodeCache
  pub deployer : DeployState

abbrev pub enqueue : Option DeployRequest → DeployState → DeployState
enqueue none s = s
enqueue (some r) s = record s { pending = s.pending ++ r ∷ [] }

abbrev pub Step : Type 0
Step = Outcome (World × Answer)

-- return ctrl.Result{}, f(...) for a function that puts a request into the queue
abbrev pub deploys : World → Attempt (Option DeployRequest) → Step
deploys w (done r) = returns (record w { deployer = enqueue r w.deployer }, finished)
deploys w (fails e) = returns (w, error e)
deploys w breaks = panics

abbrev pub with_store : SigCache → World → World
with_store c w = record w { store = c }

-- An event: the request of one of the nine reconcilers.
pub data Event : Type 0 where
  class_event : Request → Fetched GatewayClass → Event
  gateway_event : Request → Fetched Gateway → Event
  route_event : Request → Fetched HttpRoute → Event
  grant_event : Request → Fetched ReferenceGrant → Event
  secret_event : Request → Fetched Secret → Event
  endpoints_event : Request → Fetched Endpoints → Event
  service_event : Request → Fetched Service → Event
  node_event : Request → Fetched Node → Event
  namespace_event : Request → Fetched Namespace → Event
