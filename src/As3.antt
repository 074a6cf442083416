-- ===== src/As3.antt =====
-- internal/pkg/utils.go: RestToAS3, from the resources of each partition and folder, by their typed
-- names such as "ltm/virtual/gw.ns.name.listener.0", to an AS3 declaration.
pub mod TypeAndName
pub mod Application
pub mod Declaration
mod Tests
use bigip_kubernetes_gateway.Base.{
  String, Bool, true, false, ◌&&◌, ◌||◌, not, Option, none, some, List, [], ◌∷◌, ◌==◌,
  if◌then◌else◌,
}
use bigip_kubernetes_gateway.Base.GoMap.{GoMap, lookup, insert}
use bigip_kubernetes_gateway.Base.Text.{join, split}
use bigip_kubernetes_gateway.Json.{Json, text, number, boolean, array, object, members, fields}

-- a[0:l-1] and a[l-1] of a slice that is not empty
abbrev pub all_but_last : List String → List String
all_but_last [] = []
all_but_last (a ∷ []) = []
all_but_last (a ∷ (b ∷ l)) = a ∷ all_but_last (b ∷ l)

abbrev pub last : List String → String
last [] = ""
last (a ∷ []) = a
last (a ∷ (b ∷ l)) = last (b ∷ l)

unfoldable pub type_and_name : String → String × String
type_and_name s = let a = split "/" s in (join "/" (all_but_last a), last a)

-- The types that the AS3 mode leaves out.
unfoldable pub is_skipped : String → Bool
is_skipped t = t == "net/arp" || t == "ltm/node"

add_resource : String × String → Json → GoMap Json → GoMap Json
add_resource (t, n) resource application =
    if is_skipped t then application else insert n resource application

-- The loop over a folder's resources.
add_resources : GoMap Json → GoMap Json → GoMap Json
add_resources [] application = application
add_resources ((tn, resource) ∷ v) application =
    add_resources v (add_resource (type_and_name tn) resource application)

pub application_of : GoMap Json → GoMap Json
application_of v = add_resources v (("class", text "Application") ∷ [])

add_folders : GoMap (GoMap Json) → GoMap Json → GoMap Json
add_folders [] tenant = tenant
add_folders ((k, v) ∷ cfg) tenant =
    add_folders cfg (insert k (object (members (application_of v))) tenant)

pub tenant_of : GoMap (GoMap Json) → GoMap Json
unfolding add_folders
tenant_of cfg = add_folders cfg (("class", text "Tenant") ∷ [])

add_partitions : GoMap (GoMap (GoMap Json)) → GoMap Json → GoMap Json
add_partitions [] declarations = declarations
add_partitions ((p, cfg) ∷ cfgs) declarations =
    add_partitions cfgs (insert p (object (members (tenant_of cfg))) declarations)

-- The value of "declaration".
pub declaration_of : GoMap (GoMap (GoMap Json)) → GoMap Json
unfolding add_partitions
declaration_of cfgs =
    add_partitions cfgs (("class", text "ADC") ∷ ("schemaVersion", text "3.19.0") ∷ [])

pub rest_to_as3 : GoMap (GoMap (GoMap Json)) → GoMap Json
rest_to_as3 cfgs =
    insert "declaration" (object (members (declaration_of cfgs)))
      (("class", text "AS3") ∷ ("action", text "deploy") ∷ ("persist", boolean false) ∷ [])
