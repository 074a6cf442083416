-- ===== src/Controllers/Effects.antt =====
-- What a reconciler changes: the store by the update that the event asks for, the cache of nodes if the
-- event is of a node, and the queue by at most one request.
use bigip_kubernetes_gateway.Base.{
  String, Bool, true, false, not, ◌==◌, if◌then◌else◌, ◌≡◌, refl, Option, none, some, Outcome,
  returns, panics, ◌>>=◌,
}
use bigip_kubernetes_gateway.Base.Attempt.{Attempt, done, fails, breaks}
use bigip_kubernetes_gateway.External.{External}
use bigip_kubernetes_gateway.Cache.{SigCache}
use bigip_kubernetes_gateway.Cache.GrantIndex.Reach.{Update, apply}
use bigip_kubernetes_gateway.Deployer.{DeployRequest}
use bigip_kubernetes_gateway.Deploys.Distinct.{Declares}
use bigip_kubernetes_gateway.Controllers.{
  got, absent, Answer, finished, error, World, enqueue, Step, deploys, with_store, Event,
  class_event, gateway_event, route_event, grant_event, secret_event, endpoints_event,
  service_event, node_event, namespace_event,
}
use bigip_kubernetes_gateway.Base.GoMap.{HasDistinctKeys}

-- A request whose tenants are distinct, or none.
abbrev pub IsDistinct : Option DeployRequest → Type 0
IsDistinct none = Unit
IsDistinct (some r) = HasDistinctKeys r.declaration

-- The reconciler of nodes.
abbrev pub is_of_node : Event → Bool
is_of_node (node_event req o) = true
is_of_node _ = false

-- Whether the reconciler waits for the synchronisation; those of endpoints and services do not.
abbrev pub waits : Event → Bool
waits (endpoints_event req o) = false
waits (service_event req o) = false
waits _ = true

abbrev pub is_wellformed : Event → Bool
is_wellformed (class_event req o) = req.namespace == ""
is_wellformed _ = true

module _ ⦃ext : External⦄ where
  -- The update of the store that an event asks for, if any.
  abbrev pub update_of : Event → SigCache → Option Update
  update_of (class_event req (got obj)) c =
      if not (obj.controller_name == c.controller_name)
      then none
      else some (Update.class_set (some obj))
  update_of (class_event req absent) c = some (Update.class_unset req.name)
  update_of (gateway_event req (got obj)) c = some (Update.gateway_set (some obj))
  update_of (gateway_event req absent) c = some (Update.gateway_unset req.text)
  update_of (route_event req (got obj)) c = some (Update.route_set (some obj))
  update_of (route_event req absent) c = some (Update.route_unset req.text)
  update_of (grant_event req (got obj)) c = some (Update.grant_set (some obj))
  update_of (grant_event req absent) c = some (Update.grant_unset req.text)
  update_of (secret_event req (got obj)) c = some (Update.secret_set (some obj))
  update_of (secret_event req absent) c = some (Update.secret_unset req.text)
  update_of (endpoints_event req (got obj)) c = some (Update.endpoints_set (some obj))
  update_of (endpoints_event req absent) c = some (Update.endpoints_unset req.text)
  update_of (service_event req (got obj)) c = some (Update.service_set (some obj))
  update_of (service_event req absent) c = some (Update.service_unset req.text)
  update_of (namespace_event req (got obj)) c = some (Update.namespace_set (some obj))
  update_of (namespace_event req absent) c = some (Update.namespace_unset req.name)
  update_of _ c = none

  abbrev pub apply_if : Option Update → SigCache → Outcome SigCache
  apply_if none c = returns c
  apply_if (some u) c = apply u c

  -- Before the synchronisation the reconcilers that wait for it do nothing.
  abbrev pub expected : Event → SigCache → Outcome SigCache
  expected ev c =
      if not (is_wellformed ev)
      then returns c
      else if not (waits ev)
      then apply_if (update_of ev c) c
      else if c.synced_at_start
      then apply_if (update_of ev c) c
      else returns c

  -- What a step that returns has done, of which `x` is the store that is expected and `cached` says
  -- whether it is a step of the cache of nodes.
  pub record Effect (x : Outcome SigCache) (cached : Bool) (w w' : World) (a : Answer)
      : Type 0 where
    pub changes : x ≡ returns w'.store
    pub nodes : cached ≡ false → w'.nodes ≡ w.nodes
    pub queued : (o : Option DeployRequest) × (w'.deployer ≡ enqueue o w.deployer) × IsDistinct o
    pub quiet : (e : String) → a ≡ error e → w'.deployer ≡ w.deployer

  abbrev pub HasEffect : Outcome SigCache → Bool → World → Step → Type 0
  HasEffect x n w s = (w' : World) (a : Answer) → s ≡ returns (w', a) → Effect x n w w' a

  module _ {x : Outcome SigCache} {n : Bool} where
    pub of_returned :
        (w w' v : World) (a a' : Answer)
        → Effect x n w v a
        → ◌≡◌ {A = Step} (returns (v, a)) (returns (w', a'))
        → Effect x n w w' a'
    of_returned w w' v a a' f e = let k : v ≡ w' = cc in let l : a ≡ a' = cc in rw (← k, ← l) f

    -- A step that leaves the deployer alone.
    pub stores :
        (w v : World) (a : Answer)
        → x ≡ returns v.store
        → (n ≡ false → v.nodes ≡ w.nodes)
        → v.deployer ≡ w.deployer
        → HasEffect x n w (returns (v, a))
    stores w v a ch ns d w' a' e =
        of_returned w w' v a a'
          (record { changes = ch; nodes = ns; queued = (none, d, tt); quiet = λ e' h. d }) e

    pub nothing : (w : World) (a : Answer) → x ≡ returns w.store → HasEffect x n w (returns (w, a))
    nothing w a ch = stores w w a ch (λ h. refl) refl

    pub broken : (w : World) → HasEffect x n w panics
    broken w w' a e = cc e

    -- A step that deploys after a change of the store.
    pub deploys-HasEffect :
        (w : World) (c : SigCache) (m : Attempt (Option DeployRequest))
        → x ≡ returns c
        → Declares m
        → HasEffect x n w (deploys (with_store c w) m)
    deploys-HasEffect w c (done none) ch h w' a e = stores w _ finished ch (λ k. refl) refl w' a e
    deploys-HasEffect w c (done (some r)) ch h w' a e =
        of_returned w w' _ finished a
          (record {
            changes = ch;
            nodes = λ k. refl;
            queued = (some r, refl, h r refl);
            quiet = λ e' k. cc k;
          })
          e
    deploys-HasEffect w c (fails err) ch h w' a e =
        stores w _ (error err) ch (λ k. refl) refl w' a e
    deploys-HasEffect w c breaks ch h w' a e = cc e

    -- A step after a call that may panic.
    pub after {ℓ} :
        {A : Type ℓ} (w : World) (m : Outcome A) (k : A → Step)
        → ((a : A) → m ≡ returns a → HasEffect x n w (k a))
        → HasEffect x n w (m >>= k)
    after w (returns a) k h = h a refl
    after w panics k h = broken w
