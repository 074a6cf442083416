-- ===== src/Webhooks/Manager.antt =====
-- internal/webhooks/webhook_utils.go: reading the manager's cache. The cache is controller-runtime's
-- and a parameter here: it answers a Get with an object or an error, and a List with the objects or
-- an error's text.
use bigip_kubernetes_gateway.Base.{String, Option, List, [], ◌∷◌}
use bigip_kubernetes_gateway.Base.Text.{split}
use bigip_kubernetes_gateway.Api.{
  Namespace, GatewayClass, Gateway, HttpRoute, Service, Secret, ReferenceGrant,
}

pub record ObjectKey : Type 0 where
  pub namespace : String
  pub name : String

pub data Listing {ℓ} (A : Type ℓ) : Type ℓ where
  listed : List A → Listing A
  refused : String → Listing A

pub record Manager : Type 0 where
  pub get_gateway_class : ObjectKey → Option GatewayClass
  pub get_gateway : ObjectKey → Option Gateway
  pub get_namespace : ObjectKey → Option Namespace
  pub get_service : ObjectKey → Option Service
  pub get_secret : ObjectKey → Option Secret
  pub list_reference_grants : Listing ReferenceGrant
  pub list_gateways : Listing Gateway
  pub list_http_routes : Listing HttpRoute
  pub list_namespaces : Listing Namespace

abbrev last_of : String → List String → String
last_of a [] = a
last_of a (b ∷ l) = last_of b l

object_key_of_parts : List String → ObjectKey
object_key_of_parts [] = record { namespace = ""; name = "" }
object_key_of_parts (n ∷ []) = record { namespace = ""; name = n }
object_key_of_parts (ns ∷ (n ∷ l)) = record { namespace = ns; name = last_of n l }

unfoldable pub object_key_from_string : String → ObjectKey
unfolding object_key_of_parts
object_key_from_string keyname = object_key_of_parts (split "/" keyname)
