-- ===== src/Lib.antt =====
-- The BalticLSC platform's own Go programs.
--
-- The namespace controller (namespace-controller) is an admission webhook of Kubernetes. Its
-- `ProjectResolver` keeps a cache of Rancher's projects, their members and their namespaces, and
-- its `AdmissionController` asks the resolver, to put each namespace into the project of its user
-- and to demand resource requests of the pods. The cluster proxy (cluster-proxy) is a gRPC server
-- that turns the requests of the BalticLSC software into objects of one Kubernetes cluster: a
-- namespace for each batch, and claims, a config map, a service and a deployment for each module.
-- Both use the Rancher client (upstream/rancher-go/client).
--
-- Files:
-- Common and its children: Go's errors and panics as results, a monad of results over a state, maps
--   as association lists, the integers of Go with their wrap-around, decimal text.
-- Rancher/Types: types.go of upstream/rancher-go/client. Rancher/Client: the interface of
--   client.go, which the other parts take. Rancher/Http: requests and JSON as the default client uses
--   them. Rancher/DefaultClient: what the client of client.go reads, with parsers.go, and in
--   DefaultClient/Writes what it changes; DefaultClient/Reader reads the LDAP groups and puts the
--   operations together as the interface. Rancher/Bytes and Rancher/Ldap: `parseGroupFromPrincipalID`
--   of parsers.go on bytes, with Ldap/Names and Ldap/Ids about it. Rancher/Yaml is yaml.go.
--   DefaultClient/Members and DefaultClient/Requests are about the members in `UpdateProject`,
--   DefaultClient/Entities about the parser of entities.
-- Namespace/Resolver: namespace-controller/server/project_resolver.go, one definition for each
--   function and loop body; `UpdateCache` is `update_cache`, `FindUserByProject` is
--   `find_user_by_project`, and so on. Resolver/Refresh is about the refresh, Resolver/Answers about
--   the queries by user and by namespace, Resolver/Users, Resolver/Unowned and Resolver/Special about
--   the query by project, Resolver/Failures about a refresh that fails, Resolver/Kept about the cache
--   over any operation, and Resolver/OverHttp about the resolver on the default client.
--   Resolver/Overlaps is the refresh in two goroutines at once, as a relation of steps, with
--   Overlaps/Outcomes and Overlaps/Losses about its runs; Admission/Overlapped is about the webhook
--   after one.
-- Namespace/Admission: namespace-controller/server/admission_controller.go, the decision; and
--   Admission/Http, the exchange around it (`DoServeAdmitFunc`, `ServeAdmitFunc`). Admission/Pods and
--   Admission/Limits are about the containers of pods, Admission/Exempt, Admission/PodReviews and
--   Admission/Special about which pods are looked into, Admission/Namespaces about namespaces,
--   Admission/Outcomes and Admission/Unreviewed about the answers that are sent, Admission/Kept about
--   the cache over any review.
-- Namespace/Server: namespace-controller/main.go, server/http_server.go and the constructors of the
--   resolver and of the handler; Server/Runs is about runs of the server, and Server/Answers about
--   its answers after a run.
-- ClusterProxy/Proto: the messages of cluster-proxy/proto/clusterproxy.proto. ClusterProxy/Kube:
--   the Kubernetes API as cluster-proxy/server/main.go uses it. Conf, Workspace, Run, Dispose and
--   Description: the handlers of main.go. Cluster states what the proxy relies on of the API. Service
--   puts the handlers together as the gRPC service, Startup is `main` of main.go and Startup/Begun
--   and Startup/Boots about it, Commands is cluster-proxy/client/main.go and Commands/Total the
--   client against the server, Placed the namespaces of the proxy at the webhook of the namespace
--   controller. Created, Started and Restore are about running a module and disposing it, Unused,
--   Storage, Ready and Disposal about runs and disposals that the cluster does not refuse, Leaks and
--   FailedRuns about what stays behind, Status and Reports about the status handlers and errors,
--   Sizes about the sizes of claims, Inventory about the description of the cluster.
-- Tests: a small Rancher and a cluster in memory, and each theorem at a concrete input.
--
-- State: a handler of the resolver maps a `ProjectResolver`, its cache and the state `W` of the
-- world outside, to a result and the next state. The world is a parameter, and so is what answers
-- from it: the Rancher client (`Client`) or its HTTP transport (`Transport`, `Gjson`), OPA and the
-- order of `range` loops over maps (`Runtime`), JSON and quantities (`Codec`, `Quantities`), the
-- Kubernetes API (`Kube`). A panic of Go is a result of its own. What a theorem relies on of a
-- parameter is a named hypothesis: `Serves` (Rancher answers from one directory and OPA accepts the
-- cache), `RangesOverKeys` (a range visits the keys), `IsCluster` (creating and deleting an object
-- does that and nothing else), `Accepts` (it creates the objects that the run of one message asks
-- for where they are not there, in a namespace that is open for them) and `Removes` (it removes
-- what is there), `IsRecorded` (the transport notes each request), `Publishes` (Rancher's HTTP
-- answers show one directory), `Boots` (the libraries of the start-up do not fail at what `main`
-- asks of them, and Rancher answers for the configured project), `Marshals` (JSON takes every
-- response).
--
-- No loop runs on fuel: each goes over a list. Integers are unbounded, with Go's conversions to 32
-- bits written out where the code has them. Handlers run one at a time, but for Resolver/Overlaps:
-- the cache of the resolver has no lock in the source, and there two refreshes interleave, with a
-- switch wherever one waits for Rancher and between any two accesses to the maps of the cache. What
-- is said of them is that there are such runs. The memory races below that, in a map or in the
-- array that two lists share, for which Go promises nothing, are outside the model. Logging and
-- printing are not modelled, and neither are the test programs (tests/boogeyman).
pub mod Common
pub mod Rancher
pub mod Namespace
pub mod ClusterProxy
pub mod Tests
