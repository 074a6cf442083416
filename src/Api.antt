-- ===== src/Api.antt =====
-- The Kubernetes and Gateway API objects, by the fields that the gateway's code reads. Their types
-- come from k8s.io/api and sigs.k8s.io/gateway-api; a pointer or an optional field is an `Option`.
use bigip_kubernetes_gateway.Base.{ℕ, String, Option, List}

-- What client.Object gives of every object: GetNamespace, GetName and its GroupVersionKind.
pub record Object : Type 0 where
  pub namespace : String
  pub name : String
  pub group : String
  pub kind : String

abbrev pub Labels : Type 0
Labels = List (String × String)

pub record Namespace : Type 0 where
  pub name : String
  pub labels : Labels

pub record GatewayClass : Type 0 where
  pub name : String
  pub controller_name : String

-- The code hands a label selector on and never looks into it: it stands here by its text.
pub record RouteNamespaces : Type 0 where
  pub from : Option String
  pub selector : Option String

pub record RouteGroupKind : Type 0 where
  pub group : Option String
  pub kind : String

pub record AllowedRoutes : Type 0 where
  pub namespaces : Option RouteNamespaces
  pub kinds : List RouteGroupKind

pub record SecretRef : Type 0 where
  pub group : Option String
  pub kind : Option String
  pub name : String
  pub namespace : Option String

pub record ListenerTls : Type 0 where
  pub mode : Option String
  pub certificate_refs : List SecretRef

pub record Listener : Type 0 where
  pub name : String
  pub hostname : Option String
  pub port : ℕ
  pub protocol : String
  pub tls : Option ListenerTls
  pub allowed_routes : Option AllowedRoutes

pub record GatewayAddress : Type 0 where
  pub type : Option String
  pub value : String

pub record Gateway : Type 0 where
  pub meta : Object
  pub open meta use *
  pub class_name : String
  pub listeners : List Listener
  pub addresses : List GatewayAddress

pub record ParentRef : Type 0 where
  pub group : Option String
  pub kind : Option String
  pub namespace : Option String
  pub name : String
  pub section_name : Option String

pub record BackendRef : Type 0 where
  pub group : Option String
  pub kind : Option String
  pub namespace : Option String
  pub name : String
  pub weight : Option ℕ

pub record ExtensionRef : Type 0 where
  pub group : String
  pub kind : String
  pub name : String

pub record Header : Type 0 where
  pub name : String
  pub value : String

pub record HeaderModifier : Type 0 where
  pub add : List Header
  pub remove : List String
  pub set : List Header

pub record RequestRedirect : Type 0 where
  pub scheme : Option String
  pub hostname : Option String
  -- Path.ReplaceFullPath, none when the path is nil too.
  pub replace_full_path : Option String
  pub port : Option ℕ
  pub status_code : Option ℕ

pub record RouteFilter : Type 0 where
  pub type : String
  pub request_header_modifier : Option HeaderModifier
  pub response_header_modifier : Option HeaderModifier
  pub request_redirect : Option RequestRedirect
  pub extension_ref : Option ExtensionRef

pub record PathMatch : Type 0 where
  pub type : Option String
  pub value : Option String

-- A match of a header or of a query parameter.
pub record ValueMatch : Type 0 where
  pub type : Option String
  pub name : String
  pub value : String

pub record RouteMatch : Type 0 where
  pub path : Option PathMatch
  pub headers : List ValueMatch
  pub method : Option String
  pub query_params : List ValueMatch

pub record RouteRule : Type 0 where
  pub matches : List RouteMatch
  pub filters : List RouteFilter
  pub backend_refs : List BackendRef

pub record HttpRoute : Type 0 where
  pub meta : Object
  pub open meta use *
  pub hostnames : List String
  pub parent_refs : List ParentRef
  pub rules : List RouteRule

pub record Service : Type 0 where
  pub meta : Object
  pub open meta use *
  pub type : String
  pub node_ports : List ℕ

pub record EndpointAddress : Type 0 where
  pub ip : String
  pub node_name : Option String

pub record EndpointSubset : Type 0 where
  pub ports : List ℕ
  pub addresses : List EndpointAddress

pub record Endpoints : Type 0 where
  pub namespace : String
  pub name : String
  pub subsets : List EndpointSubset

pub record Secret : Type 0 where
  pub meta : Object
  pub open meta use *
  pub type : String
  pub tls_crt : String
  pub tls_key : String

pub record GrantFrom : Type 0 where
  pub group : String
  pub kind : String
  pub namespace : String

pub record GrantTo : Type 0 where
  pub group : String
  pub kind : String
  pub name : Option String

pub record ReferenceGrant : Type 0 where
  pub namespace : String
  pub name : String
  pub from : List GrantFrom
  pub to : List GrantTo

-- Constants of the API packages.
abbrev pub gateway_group : String
gateway_group = "gateway.networking.k8s.io"

abbrev pub core_group : String
core_group = ""
