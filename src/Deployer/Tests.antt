-- ===== src/Deployer/Tests.antt =====
-- A run of the deployer with one BIG-IP: a request arrives, and its round is made.
use bigip_kubernetes_gateway.Base.{
  String, ◌≡◌, refl, Bool, true, false, ◌&&◌, Option, none, some, List, [], ◌∷◌, ◌==◌, inl, inr,
  Bool-cases,
}
use bigip_kubernetes_gateway.Base.GoMap.{GoMap, lookup, insert, delete}
use bigip_kubernetes_gateway.Base.Lists.{All}
use bigip_kubernetes_gateway.External.{AllNone}
use bigip_kubernetes_gateway.Json.{Json, text, object, Members, end, member, members}
use bigip_kubernetes_gateway.External.Sample.{merge_errors}
use bigip_kubernetes_gateway.External.Sample.Lawful.{merge_errors_iff}
use bigip_kubernetes_gateway.Deployer.{
  DeployRequest, Backend, DeployState, is_text, has_class, is_tenant, has_tenant, merge_requests,
  merge_into, same_as_cached, eliminate, note_outcome, note_entry, note_deployed, posted, run_round,
  handle_next,
}
use bigip_kubernetes_gateway.Deployer.Devices.{Posts, IsPosted, Installs}
use bigip_kubernetes_gateway.Deployer.Runs.{idle, Answers, Round, Reached, IsSound, Reached-IsSound}
use bigip_kubernetes_gateway.Deployer.Delivery.{
  Holds, latest, merge_requests-eq-latest, round_delivers, failed_round_retries,
}

-- Equality of values, without numbers' and maps' subtleties: the test's values are texts and objects.
abbrev mutual
  same_json : Json → Json → Bool
  same_json (text a) (text b) = a == b
  same_json (object a) (object b) = same_members a b
  same_json _ _ = false

  same_members : Members → Members → Bool
  same_members end end = true
  same_members (member k v m) (member k' v' m') = k == k' && (same_json v v' && same_members m m')
  same_members _ _ = false

abbrev backend : Backend
backend = record { deep_equal = same_json; merge_errors = merge_errors }

merge_errors-AllNone : (errs : List (Option String)) → merge_errors errs ≡ none → AllNone errs
merge_errors-AllNone errs = (merge_errors_iff errs).0

abbrev tenant : Json
tenant = object (members (("class", text "Tenant") ∷ []))

abbrev body : GoMap Json
body = ("ns", tenant) ∷ []

abbrev request : DeployRequest
request = record { declaration = body }

abbrev waiting : DeployState
waiting = record idle { pending = request ∷ [] }

abbrev fine : Answers
fine b = none ∷ []

abbrev deployed : DeployState
deployed = record { pending = []; tenant_cache = body; responses = none ∷ [] }

waiting_Reached : Reached backend waiting ([] ∷ [])
unfolding lookup
waiting_Reached = Reached.request request (refl, tt) (Reached.start ([] ∷ []))

body_others : (k : String) → ¬ (IsPosted body k) → lookup k body ≡ lookup k []
unfolding lookup is_tenant has_class is_text
body_others k n = elim (Bool-cases ("ns" == k)) [
  | inl y ↦ absurd (n (tenant, rw y refl, refl))
  | inr other ↦ rw other refl
]

body-Installs : Installs body [] body
body-Installs = record { leaves = record { others = body_others }; tenants = λ k t e y. e }

fine-Posts : Posts body (none ∷ []) ([] ∷ []) (body ∷ [])
fine-Posts = Posts.installed body-Installs Posts.done

fine_round : Round backend fine waiting ([] ∷ []) deployed (body ∷ [])
unfolding handle_next run_round posted merge_requests eliminate has_tenant note_deployed note_entry
    note_outcome is_tenant has_class is_text same_as_cached lookup insert
fine_round = record {
  first = request;
  others = [];
  waiting = refl;
  result = refl;
  posts = fine-Posts;
}

reached_example : IsSound backend deployed (body ∷ [])
reached_example =
    Reached-IsSound backend merge_errors-AllNone (Reached.round fine waiting_Reached fine_round)

round_delivers_example : All (Holds backend "ns" tenant) (body ∷ [])
unfolding lookup merge_requests is_tenant has_class is_text fine_round
round_delivers_example =
    round_delivers backend merge_errors-AllNone waiting_Reached fine_round "ns" tenant (refl, tt)
      refl refl

-- A round whose post fails.
abbrev unavailable : Answers
unavailable b = some "503" ∷ []

abbrev refused : DeployState
refused = record { pending = []; tenant_cache = []; responses = some "503" ∷ [] }

unavailable-Posts : Posts body (some "503" ∷ []) ([] ∷ []) ([] ∷ [])
unavailable-Posts = Posts.failed (record { others = λ k n. refl }) Posts.done

refused_round : Round backend unavailable waiting ([] ∷ []) refused ([] ∷ [])
unfolding handle_next run_round posted merge_requests eliminate has_tenant note_deployed note_entry
    note_outcome is_tenant has_class is_text same_as_cached lookup insert delete
refused_round = record {
  first = request;
  others = [];
  waiting = refl;
  result = refl;
  posts = unavailable-Posts;
}

failed_round_retries_example : lookup "ns" (posted backend request (request ∷ []) []) ≡ some tenant
unfolding lookup insert posted merge_requests merge_into eliminate is_tenant has_class is_text
    same_as_cached refused_round
failed_round_retries_example =
    failed_round_retries backend merge_errors-AllNone waiting_Reached refused_round "ns" tenant
      "503" request (request ∷ []) tenant refl refl refl (refl, tt) refl refl

merge_requests_example :
    lookup "ns" (merge_requests [] (request ∷ [])) ≡ latest "ns" (lookup "ns" []) (request ∷ [])
unfolding lookup
merge_requests_example = merge_requests-eq-latest "ns" [] (request ∷ []) ((refl, tt), tt)
