-- ===== src/Webhooks/Validate/Messages.antt =====
-- Every message of the validations has a text.
use text.Mathlib.TextLemmas.{append-eq-nil_iff}
use bigip_kubernetes_gateway.Base.{
  String, ◌≡◌, ◌≢◌, ◌||◌, not, Option, some, [], ◌∷◌, ◌==◌, eq_iff, arith, inl, inr, Bool-cases,
  or_default,
}
use bigip_kubernetes_gateway.Base.Text.{◌⧺◌}
use bigip_kubernetes_gateway.Api.{core_group, gateway_group}
use bigip_kubernetes_gateway.External.{External}
use bigip_kubernetes_gateway.Webhooks.Validate.{
  type_error, validate_service_type, validate_secret_type, validate_gateway_type,
}

-- A message that begins, or ends, with a text has a text.
pub speaks_left : (a b : String) → a ≢ "" → a ⧺ b ≢ ""
speaks_left a b h e = h (append-eq-nil_iff.0 e).0

pub speaks_right : (a b : String) → b ≢ "" → a ⧺ b ≢ ""
speaks_right a b h e = h (append-eq-nil_iff.0 e).1

module _ ⦃ext : External⦄ where
  -- The error of a wrong type has a text.
  type_error-ne-empty :
      (group kind g k : String) {err : String} → type_error group kind g k ≡ some err → err ≢ ""
  unfolding type_error
  type_error-ne-empty group kind g k {err} e =
      elim (Bool-cases (not (g == group) || not (k == kind))) [
        | inl y ↦
            let same : "not " ⧺ kind ⧺ " type: '" ⧺ ext.keyname (g ∷ k ∷ []) ⧺ "'" ≡ err =
              cc (rw y at e) in
            rw (← same) (speaks_left "not " _ (ground (arith, eq_iff "not " "")))
        | inr n ↦ cc (rw n at e)
      ]

  pub service_error :
      (group kind : Option String) {err : String}
      → validate_service_type group kind ≡ some err
      → err ≢ ""
  unfolding validate_service_type
  service_error group kind e =
      type_error-ne-empty core_group "Service" (or_default core_group group)
        (or_default "Service" kind) e

  pub secret_error :
      (group kind : Option String) {err : String}
      → validate_secret_type group kind ≡ some err
      → err ≢ ""
  unfolding validate_secret_type
  secret_error group kind e =
      type_error-ne-empty core_group "Secret" (or_default core_group group)
        (or_default "Secret" kind) e

  pub gateway_error :
      (group kind : Option String) {err : String}
      → validate_gateway_type group kind ≡ some err
      → err ≢ ""
  unfolding validate_gateway_type
  gateway_error group kind e =
      type_error-ne-empty gateway_group "Gateway" (or_default gateway_group group)
        (or_default "Gateway" kind) e
