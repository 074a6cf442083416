-- ===== src/IRules/Filters.antt =====
-- internal/pkg/iruletmpl_parser.go: the actions of an iRule for a rule's filters.
use bigip_kubernetes_gateway.Base.{
  ℕ, String, not, ◌&&◌, Option, none, some, List, [], ◌∷◌, ◌++◌, map, ◌==◌, nat_eq, if◌then◌else◌,
}
use bigip_kubernetes_gateway.Base.Attempt.{Attempt, done, fails, breaks, ◌>>=◌, decimal}
use bigip_kubernetes_gateway.Base.Text.{join, ◌⧺◌}
use bigip_kubernetes_gateway.Api.{
  HeaderModifier, RequestRedirect, ExtensionRef, RouteFilter, HttpRoute,
}

unfoldable pub header_actions : Option HeaderModifier → List String
header_actions none = []
header_actions (some m) =
    map (λ h. "HTTP::header insert " ⧺ h.name ⧺ " " ⧺ h.value) m.add
    ++ map (λ n. "HTTP::header remove " ⧺ n) m.remove
    ++ map (λ h. "HTTP::header replace " ⧺ h.name ⧺ " " ⧺ h.value) m.set

abbrev quoted : String → Option String → String → String
quoted before none default = default
quoted before (some s) default = before ⧺ " \"" ⧺ s ⧺ "\""

abbrev set_port : Option ℕ → String
set_port none = "set rport [TCP::local_port]"
set_port (some port) = "set rport " ⧺ decimal port

abbrev redirect_text : RequestRedirect → ℕ → String
redirect_text rr status =
    "\n\t\t\t\t\t"
    ⧺ quoted "set rscheme" rr.scheme "set rscheme \"http\""
    ⧺ "\n\t\t\t\t\t"
    ⧺ quoted "set rhostname" rr.hostname "set rhostname \"[HTTP::host]\""
    ⧺ "\n\t\t\t\t\t"
    ⧺ quoted "set ruri" rr.replace_full_path "set ruri \"[HTTP::uri]\""
    ⧺ " \n\t\t\t\t\t"
    ⧺ set_port rr.port
    ⧺ "\n\t\t\t        set url $rscheme://$rhostname:$rport$ruri"
    ⧺ "\n\t\t\t\t\tHTTP::respond "
    ⧺ decimal status
    ⧺ " Location $url\n\t\t\t\t\t"

-- A status code that is nil passes the test and is followed afterwards.
unfoldable pub redirect_status : RequestRedirect → Option ℕ → Attempt (List String)
redirect_status rr none = breaks
redirect_status rr (some status) =
    if not (nat_eq status 301) && not (nat_eq status 302)
    then fails ("invalid status " ⧺ decimal status ⧺ " for request redirect")
    else done (redirect_text rr status ∷ [])

unfoldable pub redirect_actions : Option RequestRedirect → Attempt (List String)
redirect_actions none = done []
redirect_actions (some rr) = redirect_status rr rr.status_code

unfoldable pub extension_actions : HttpRoute → Option ExtensionRef → List String
extension_actions hr none = []
extension_actions hr (some er) =
    ("pool /cis-c-tenant/" ⧺ hr.namespace ⧺ "." ⧺ er.name ⧺ "; return") ∷ []

unfoldable pub req_filter_actions : HttpRoute → RouteFilter → Attempt (List String)
req_filter_actions hr f =
    if f.type == "RequestHeaderModifier"
    then done (header_actions f.request_header_modifier)
    else if f.type == "RequestMirror"
    then fails "filter type 'RequestMirror' not supported"
    else if f.type == "RequestRedirect"
    then redirect_actions f.request_redirect
    else if f.type == "ExtensionRef"
    then done (extension_actions hr f.extension_ref)
    else done []

unfoldable pub req_actions : HttpRoute → List RouteFilter → Attempt (List String)
req_actions hr [] = done []
req_actions hr (f ∷ fs) = do
  actions ← req_filter_actions hr f
  rest ← req_actions hr fs
  done (actions ++ rest)

unfoldable pub parse_irule_req_filters : List RouteFilter → HttpRoute → Attempt String
parse_irule_req_filters filters hr = do actions ← req_actions hr filters; done (join "\n" actions)

unfoldable pub resp_actions : List RouteFilter → List String
resp_actions [] = []
resp_actions (f ∷ fs) =
    let rest = resp_actions fs in
    if f.type == "ResponseHeaderModifier"
    then header_actions f.response_header_modifier ++ rest
    else rest

unfoldable pub parse_irule_resp_filters : List RouteFilter → HttpRoute → Attempt String
parse_irule_resp_filters filters hr = done (join "\n" (resp_actions filters))
