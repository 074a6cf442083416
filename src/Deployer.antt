-- ===== src/Deployer.antt =====
-- internal/pkg/utils.go: AS3Deployer. One round takes every pending request, merges their tenants,
-- leaves out those that the tenant cache knows to be deployed, posts the rest to each BIG-IP, and
-- notes in the cache what was deployed.
mod Rounds
pub mod Devices
pub mod Runs
pub mod Delivery
pub mod Progress
pub mod Queues
mod Tests
use bigip_kubernetes_gateway.Base.{
  String, Bool, true, false, not, ◌&&◌, Option, none, some, List, [], ◌∷◌, ◌++◌, ◌==◌,
  if◌then◌else◌, map,
}
use bigip_kubernetes_gateway.Base.GoMap.{GoMap, lookup, insert, delete}
use bigip_kubernetes_gateway.Json.{Json, text, number, boolean, array, object, fields}

-- What a request carries: `declaration` of the AS3 body that it points to.
pub record DeployRequest : Type 0 where
  pub declaration : GoMap Json

-- utils.DeepEqual on tenants, and utils.MergeErrors, on errors that stand by their texts.
pub record Backend : Type 0 where
  pub deep_equal : Json → Json → Bool
  pub merge_errors : List (Option String) → Option String

is_text : String → Json → Bool
is_text s (text t) = t == s
is_text s _ = false

has_class : Option Json → Bool
unfolding is_text
has_class none = false
has_class (some c) = is_text "Tenant" c

-- A map whose class is "Tenant".
pub is_tenant : Json → Bool
unfolding has_class
is_tenant (object m) = has_class (lookup "class" (fields m))
is_tenant _ = false

-- for k, t := range tenants { as3body["declaration"][k] = t }
merge_into : GoMap Json → GoMap Json → GoMap Json
merge_into body [] = body
merge_into body ((k, t) ∷ tenants) = merge_into (insert k t body) tenants

-- The requests that wait in the queue, merged into the first.
pub merge_requests : GoMap Json → List DeployRequest → GoMap Json
unfolding merge_into
merge_requests body [] = body
merge_requests body (m ∷ ms) = merge_requests (merge_into body m.declaration) ms

-- if any tenant is left
pub has_tenant : GoMap Json → Bool
has_tenant [] = false
has_tenant ((k, t) ∷ m) = if is_tenant t then true else has_tenant m

pub record DeployState : Type 0 where
  pub pending : List DeployRequest
  pub tenant_cache : GoMap Json
  -- The statuses that the responses of DoneDeploys carry.
  pub responses : List (Option String)

-- Note a deployed tenant, or forget one that failed.
note_outcome : Option String → String → Json → GoMap Json → GoMap Json
note_outcome none k t cache = insert k t cache
note_outcome (some e) k t cache = delete k cache

module _ (b : Backend) where
  pub same_as_cached : Json → Option Json → Bool
  same_as_cached t none = false
  same_as_cached t (some oldt) = b.deep_equal oldt t

  -- The duplicates are deleted while the map is ranged over.
  pub eliminate : GoMap Json → GoMap Json → GoMap Json
  unfolding same_as_cached
  eliminate cache [] = []
  eliminate cache ((k, t) ∷ m) =
      let rest = eliminate cache m in
      if is_tenant t && same_as_cached t (lookup k cache) then rest else (k, t) ∷ rest

  -- One round of the loop over the posted body that updates the cache.
  note_entry : List (Option String) → String → Json → GoMap Json → GoMap Json
  unfolding same_as_cached
  note_entry errs k t cache =
      if is_tenant t && not (same_as_cached t (lookup k cache))
      then note_outcome (b.merge_errors errs) k t cache
      else cache

  pub note_deployed : List (Option String) → GoMap Json → GoMap Json → GoMap Json
  note_deployed errs [] cache = cache
  note_deployed errs ((k, t) ∷ m) cache = note_deployed errs m (note_entry errs k t cache)

  -- What a round posts: the merged body without the duplicates.
  pub posted : DeployRequest → List DeployRequest → GoMap Json → GoMap Json
  posted r ms cache = eliminate cache (merge_requests r.declaration ms)

  -- A round, once its requests are taken. `handle_requests` is what deployer.HandleRequest answers
  -- for a body on each BIG-IP in turn, nil or an error.
  pub run_round :
      (GoMap Json → List (Option String))
      → DeployState
      → DeployRequest
      → List DeployRequest
      → DeployState
  run_round handle_requests s r ms =
      let body = posted r ms s.tenant_cache in
      let errs = handle_requests body in
      if has_tenant body
      then record {
        pending = [];
        tenant_cache = note_deployed errs body s.tenant_cache;
        responses = s.responses ++ errs;
      }
      else record s { pending = [] }

  -- One call of `handleNext`; with an empty queue it blocks.
  pub handle_next : (GoMap Json → List (Option String)) → DeployState → Option DeployState
  handle_next handle_requests s = elim s.pending [
    | [] ↦ none
    | r ∷ ms ↦ some (run_round handle_requests s r ms)
  ]
