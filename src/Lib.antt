-- ===== src/Lib.antt =====
-- The F5 BIG-IP controller of the Kubernetes Gateway API: gateways, routes, services and reference
-- grants of a cluster become AS3 declarations that are posted to the BIG-IPs.
--
-- The controller's store SIGCache (internal/pkg/cache.go, types.go) holds the objects of the cluster.
-- SyncAllResources fills it at start; the reconcilers (internal/controllers) put objects in and take
-- them out; queries find what is attached to what; an index of
-- reference grants (ReferenceGrantFromTo of internal/pkg/utils.go) answers whether a reference to another
-- namespace is allowed. A reconciler of the
-- Gateway API ends with DeployForEvent, one of services or endpoints with HandleBackends
-- (internal/pkg/utils.go): they parse the gateways of the classes, their routes and services
-- (internal/pkg/parser.go, iruletmpl_parser.go) to a declaration (RestToAS3), which waits in a queue for
-- the deployer (AS3Deployer). Admission webhooks
-- (internal/webhooks) reject objects beforehand, by the objects that their own manager has cached. A cache
-- of nodes (internal/k8s) gives the addresses of the pool members.
--
--  * Base: the names of the library that the other files use, Go's branches, panics, loops over slices,
--    maps (Base/GoMap, an association list without repeated keys; a theorem about every map is one about
--    every order of iteration) and strings.Join and strings.Split (Base/Text).
--  * Api: the objects of k8s.io/api and sigs.k8s.io/gateway-api, by the fields that the code reads.
--  * External: the functions of f5-bigip-rest-go/utils and of k8s.io/apimachinery that the code calls, a
--    parameter of every definition that uses them; External/Sample has concrete ones for the tests.
--  * Names, RouteMatch: the naming functions and RouteMatches of internal/pkg/utils.go.
--  * Grants: ReferenceGrantFromTo with set, unset and exists of internal/pkg/utils.go. A counter is an
--    int8 there: here a number below 256 with `% 256` written out, positive below 128. Grants/Counting
--    and Grants/Sources say what set and unset do to a counter and to the known sources.
--  * Cache: the record SigCache and every Set, Unset and Get method. Cache/GrantIndex is about the index
--    in the states that updates reach (Reached), in which each total stays below 256. Cache/Attached has
--    AttachedGateways, GatewayRefsOfHR, AttachedHTTPRoutes, AttachedServices, RelatedServices and
--    HTTPRoutesRefsOf; Cache/Secrets has GatewayRefsOfSecret and AttachedSecrets; Cache/Refer has CanRefer, by the keys of the index (Laws) and by the grants
--    themselves (Objects). Cache/Impact has RGImpactedGatewayClasses, NSImpactedGatewayClasses,
--    GetNeighborGateways and GetRootGateways.
--  * Json, As3: interface{} values, and RestToAS3 and typeAndName.
--  * Deployer: handleNext of AS3Deployer. Deployer/Devices says what deployer.HandleRequest does to a
--    BIG-IP, as a relation; Deployer/Runs has the runs of requests and rounds; Deployer/Delivery is about
--    single rounds. A round with an empty queue blocks, which is the answer `none`.
--  * IRules: internal/pkg/iruletmpl_parser.go and the templates, as the text that they give.
--  * Parser: internal/pkg/parser.go. Parser/Gateways has parseGateway and parseSecrets, Parser/Services
--    has ParseServices and ParseClassRelatedServices. Parser/Rules, Virtuals, References and Integrity are
--    about the iRules that virtual servers name, Parser/VirtualNames about the keys of virtual servers,
--    Parser/Blocked about routes that cannot be parsed.
--  * Deploys: DeployForEvent and HandleBackends, as the request that they put into the queue.
--    Deploys/Merged and Pools are about the partitions that it is made of, Deploys/Classes and Blocked
--    about DeployForEvent, Deploys/Namespaces and Unrouted about HandleBackends.
--  * Controllers: internal/controllers. A World is the store, the cache of nodes and the deployer; a
--    reconciler takes a world to a world and an answer, or panics. Controllers/Gateways and
--    Controllers/Cores have the reconcilers; Controllers/Effects and Controllers/Reconciled are about
--    what they change, Controllers/Agreement, Controllers/Agreed and Controllers/Guards about what the
--    store has afterwards, Controllers/Requests about what they put into the queue.
--  * Startup: SyncAllResources, with what the API server lists as a parameter (Cluster); Startup/Ends is
--    about how it ends.
--  * System: the synchronisation, the reconcilers and the deployer together, as runs.
--  * Webhooks: internal/webhooks, with the manager's cache as a parameter (Webhooks/Manager), the keys
--    that switch validations on (Webhooks/Keys), the validations (Webhooks/Validate, Webhooks/Gateways)
--    and the handlers (Webhooks/Handlers). Webhooks/Validate/Checks has the shape that all checks share.
--  * K8s: internal/k8s, the cache of nodes (K8s/Nodes) and FormatMembersFromServiceEndpoints
--    (K8s/Members).
--
-- Every loop is a recursion on the list that it ranges over, so that no fuel is needed; only the digits
-- of a number (Base/Attempt) are made on fuel, one more than the number. A method of the
-- store holds its mutex throughout and is one step. Errors stand by their texts, and a nil pointer that
-- the code follows is the outcome `panics`.
--
-- Not modelled: since they are input and output, the commands under cmd, RespHandler, logging and
-- metrics; and reconcilers that run at the same time and interleave their accesses of the store between
-- the mutex's sections: a call of Reconcile is one step here.
pub mod Api
pub mod As3
pub mod Base
pub mod Cache
pub mod Controllers
pub mod Deployer
pub mod Deploys
pub mod External
pub mod Grants
pub mod IRules
pub mod Json
pub mod K8s
pub mod Names
pub mod Parser
pub mod RouteMatch
pub mod Startup
pub mod System
pub mod Webhooks
