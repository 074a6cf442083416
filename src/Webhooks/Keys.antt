-- ===== src/Webhooks/Keys.antt =====
-- internal/webhooks/vars.go and webhook_utils.go: which validations are turned on.
use bigip_kubernetes_gateway.Base.{
  String, Bool, true, false, Option, none, some, List, [], ◌∷◌, ◌==◌, if◌then◌else◌,
}
use bigip_kubernetes_gateway.Base.GoMap.{GoMap, lookup, insert}
use bigip_kubernetes_gateway.Base.Text.{join, ◌⧺◌}

abbrev pub vk_gateway_class_name : String
vk_gateway_class_name = "gateway.gatewayClassName"

abbrev pub vk_gateway_certificate_refs : String
vk_gateway_certificate_refs = "gateway.listeners.tls.certificateRefs"

abbrev pub vk_httproute_parent_refs : String
vk_httproute_parent_refs = "httproute.parentRefs"

abbrev pub vk_httproute_backend_refs : String
vk_httproute_backend_refs = "httproute.rules.backendRefs"

-- validateMap, as it starts
abbrev pub initial_validate_map : GoMap Bool
initial_validate_map =
    (vk_gateway_class_name, false)
    ∷ (vk_gateway_certificate_refs, false)
    ∷ (vk_httproute_parent_refs, false)
    ∷ (vk_httproute_backend_refs, false)
    ∷ []

keys_of : GoMap Bool → List String
keys_of [] = []
keys_of ((k, v) ∷ m) = k ∷ keys_of m

unfoldable pub supported_validating_keys : GoMap Bool → List String
unfolding keys_of
supported_validating_keys validate_map = keys_of validate_map

unfoldable pub turn_on : String → GoMap Bool → GoMap Bool
turn_on key m =
    if key == "" then m else elim (lookup key m) [ none ↦ m | some v ↦ insert key true m ]

unfoldable pub turn_on_validating_for : List String → GoMap Bool → GoMap Bool
turn_on_validating_for [] m = m
turn_on_validating_for (key ∷ keys) m = turn_on_validating_for keys (turn_on key m)

is_invalid : String → GoMap Bool → Bool
is_invalid key m = if key == "" then false else elim (lookup key m) [ none ↦ true | some v ↦ false ]

invalid_keys : List String → GoMap Bool → List String
invalid_keys [] m = []
invalid_keys (key ∷ keys) m =
    let rest = invalid_keys keys m in if is_invalid key m then key ∷ rest else rest

invalid_error : List String → Option String
invalid_error [] = none
invalid_error (key ∷ keys) = some ("invalid keys: " ⧺ join "," (key ∷ keys))

unfoldable pub validate_given_keys : List String → GoMap Bool → Option String
unfolding invalid_keys invalid_error is_invalid
validate_given_keys keys m = invalid_error (invalid_keys keys m)

-- validateMap[key]: a missing key reads as false.
abbrev pub is_on : String → GoMap Bool → Bool
is_on key m = elim (lookup key m) [ none ↦ false | some v ↦ v ]
