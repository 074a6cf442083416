-- ===== src/Controllers/Agreement.antt =====
-- The reconcilers are level-triggered: whatever a reconciler deploys, and whether that fails, the
-- store agrees afterwards with what the API server answered.
use bigip_kubernetes_gateway.Base.{
  String, Bool, true, false, ◌==◌, if◌then◌else◌, ◌≡◌, refl, ◌⊎◌, Option, none, some, Outcome,
  returns, panics, ◌>>=◌,
}
use bigip_kubernetes_gateway.Base.Attempt.{Attempt, done, fails, breaks}
use bigip_kubernetes_gateway.External.{External}
use bigip_kubernetes_gateway.K8s.Nodes
use bigip_kubernetes_gateway.K8s.Nodes.{Node, Unmarshalled, build_node, detect_cni_type}
use bigip_kubernetes_gateway.K8s.Nodes.Laws.{Updated}
use bigip_kubernetes_gateway.Deployer.{DeployRequest, DeployState}
use bigip_kubernetes_gateway.Cache.{
  object_key, get_namespace, get_gateway_class, get_gateway, get_http_route, get_endpoints,
  get_service, get_secret, get_reference_grant,
}
use bigip_kubernetes_gateway.Controllers.{
  got, absent, failed, Answer, finished, error, World, enqueue, Step, deploys, Event, class_event,
  gateway_event, route_event, grant_event, secret_event, endpoints_event, service_event, node_event,
  namespace_event,
}

module _ ⦃ext : External⦄ (unmarshal : String → Unmarshalled) (before : World) where
  -- The cached object is the one that was answered, except for a class of another controller, and there
  -- is none if none was answered. A node that was answered is cached, kept out or removed the way Set
  -- says. After another error nothing has changed.
  abbrev pub Agrees : Event → World → Type 0
  Agrees (class_event req (got obj)) w =
      (get_gateway_class obj.name w.store ≡ some obj)
      ⊎ ((obj.controller_name == w.store.controller_name) ≡ false)
  Agrees (class_event req absent) w = get_gateway_class req.name w.store ≡ none
  Agrees (gateway_event req (got obj)) w =
      get_gateway (object_key obj.namespace obj.name) w.store ≡ some obj
  Agrees (gateway_event req absent) w = get_gateway req.text w.store ≡ none
  Agrees (route_event req (got obj)) w =
      get_http_route (object_key obj.namespace obj.name) w.store ≡ some obj
  Agrees (route_event req absent) w = get_http_route req.text w.store ≡ none
  Agrees (grant_event req (got obj)) w =
      get_reference_grant (object_key obj.namespace obj.name) w.store ≡ some obj
  Agrees (grant_event req absent) w = get_reference_grant req.text w.store ≡ none
  Agrees (secret_event req (got obj)) w =
      get_secret (object_key obj.namespace obj.name) w.store ≡ some obj
  Agrees (secret_event req absent) w = get_secret req.text w.store ≡ none
  Agrees (endpoints_event req (got obj)) w =
      get_endpoints (object_key obj.namespace obj.name) w.store ≡ some obj
  Agrees (endpoints_event req absent) w = get_endpoints req.text w.store ≡ none
  Agrees (service_event req (got obj)) w =
      get_service (object_key obj.namespace obj.name) w.store ≡ some obj
  Agrees (service_event req absent) w = get_service req.text w.store ≡ none
  Agrees (node_event req absent) w = Nodes.get req.name w.nodes ≡ none
  Agrees (namespace_event req (got obj)) w = get_namespace obj.name w.store ≡ some obj
  Agrees (namespace_event req absent) w = get_namespace req.name w.store ≡ none
  Agrees (node_event req (got obj)) w =
      (err : Option String) × Updated obj
        (build_node unmarshal obj (detect_cni_type obj.conditions)) before.nodes w.nodes err
  Agrees (class_event req (failed e)) w = w ≡ before
  Agrees (gateway_event req (failed e)) w = w ≡ before
  Agrees (route_event req (failed e)) w = w ≡ before
  Agrees (grant_event req (failed e)) w = w ≡ before
  Agrees (secret_event req (failed e)) w = w ≡ before
  Agrees (endpoints_event req (failed e)) w = w ≡ before
  Agrees (service_event req (failed e)) w = w ≡ before
  Agrees (node_event req (failed e)) w = w ≡ before
  Agrees (namespace_event req (failed e)) w = w ≡ before

-- What holds of the state whenever a step returns.
abbrev pub Leads : (World → Type 0) → Step → Type 0
Leads P s = (w' : World) (a : Answer) → s ≡ returns (w', a) → P w'

of_answer :
    (P : World → Type 0) (v w' : World) (a a' : Answer)
    → P v
    → ◌≡◌ {A = Step} (returns (v, a)) (returns (w', a'))
    → P w'
of_answer P v w' a a' p e = let same : v ≡ w' = cc in rw (← same) p

pub Leads-returns : (P : World → Type 0) (v : World) (a : Answer) → P v → Leads P (returns (v, a))
Leads-returns P v a p w' a' e = of_answer P v w' a a' p e

pub Leads-panics : (P : World → Type 0) → Leads P panics
Leads-panics P w' a e = cc e

pub Leads-deploys :
    (P : World → Type 0) (v : World) (m : Attempt (Option DeployRequest))
    → ((d : DeployState) → P (record v { deployer = d }))
    → Leads P (deploys v m)
Leads-deploys P v (done o) h =
    Leads-returns P (record v { deployer = enqueue o v.deployer }) finished (h _)
Leads-deploys P v (fails e) h = Leads-returns P v (error e) (h v.deployer)
Leads-deploys P v breaks h = Leads-panics P

pub Leads-after {ℓ} :
    {A : Type ℓ} (P : World → Type 0) (m : Outcome A) (k : A → Step)
    → ((a : A) → m ≡ returns a → Leads P (k a))
    → Leads P (m >>= k)
Leads-after P (returns a) k h = h a refl
Leads-after P panics k h = Leads-panics P

pub Leads-if :
    (P : World → Type 0) (b : Bool) (s t : Step)
    → (b ≡ true → Leads P s)
    → (b ≡ false → Leads P t)
    → Leads P (if b then s else t)
Leads-if P true s t h k = h refl
Leads-if P false s t h k = k refl

pub Leads-branch :
    (P : World → Type 0) (b : Bool) (s t : Step)
    → Leads P s
    → Leads P t
    → Leads P (if b then s else t)
Leads-branch P b s t h k = Leads-if P b s t (λ y. h) (λ n. k)
