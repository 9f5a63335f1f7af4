-- ===== src/Lib.antt =====
-- The manager of Claudie and what it stands on: a cluster is a document in a database, a task of it
-- goes through the stages of a pipeline, the workers of a stage answer over message queues, and the
-- manager takes up their answers, advances the task, and moves the document between its states.
--
-- Prelude: lists, maps, texts and machine integers that the other modules share. A Go map with
-- string keys is an association list (Maps), `slices` functions are in Lists, an int32 or uint32 is
-- its bit pattern with the wrap-around written out (Words).
--
-- Spec: proto/spec and proto/pb/spec. The messages are records and data types (Spec, Spec/Task).
-- Spec/Clear models Task.ConsumeClearResult, MutableClusters and ReplaceClusters; Spec/Request,
-- Spec/Merge and Spec/Update model Task.ConsumeUpdateResult and the Commit of an update in
-- proto/pb/spec/utils_consume.go, and Spec/Credentials CopyCredentials and CredentialsEqual of
-- utils.go. A result that is refused gives back the task as it was changed until then, and a
-- dereference of nil is the constructor `panics`.
--
-- Pools: internal/nodepools/nodepools.go. Pools and Pools/Edit model the operations that change a
-- nodepool; Counted, Keys and Split are about the count of dynamic nodepools and the keys of static
-- ones.
--
-- Manifest: internal/api/manifest/state.go, the states of a manifest.
--
-- Store: services/manager/internal/store. The documents and the interface (api.go) are in Store,
-- what the interface promises is in Store/Locking, the MongoDB client (mongo_client.go) in
-- Store/Mongo, and convert_db_grpc.go in Store/Stages, Store/Convert and Store/States. The MongoDB
-- collection is a parameter with what its calls document (IsCollection); Protobuf's Marshal and
-- Unmarshal, times and enum names are a parameter with what they document (IsCodec); the text of a
-- time has no part of a second. The chain of events of a lower priority is a list.
--
-- Manager: services/manager/internal/service. Manager/Counters, Manager/Stages and Manager/Process
-- model process_task.go: a message is dropped, or leads to a cluster that is written back, or is
-- not acknowledged, or the service panics, before or behind the write. Manager/Messages and
-- Manager/Subject model messageForStage of watchers.go, taskStageFromNatsSubject of handler_msg.go
-- and internal/natsutils/subjects.go. Manager/Process/Run is a sequence of such messages, one for
-- each stage of a task. Manager/Scheduled, Manager/Pending and Manager/Idle model the three loops
-- of watchers.go over the stored documents; the NATS client and createDesiredState are parameters.
--
-- Manager/Diff models diff.go: NodePoolsDiff in Manager/Diff, the loops over nodepools that the
-- other two differences share in Diff/Pools, KubernetesDiff in Diff/Labels and Diff/Kubernetes,
-- LoadBalancersDiff in Diff/LoadBalancers, and determineLBApiEndpointChange in Diff/Endpoint.
-- Manager/Credentials and Manager/Reconcile model reconciliation.go: updateCredentials,
-- clustersUnion (Reconcile/Union), the visit of one cluster (Reconcile/Parts and
-- Reconcile/Cluster), and reconciliate with the fold of the results (Reconcile/Final). The record
-- Planner is the interface to the files that plan a task for a difference and to the health checks.
--
-- Manager/Handlers models the gRPC handlers that change a document:
-- handler_node_pool_update_target_size.go and handler_mark_node_for_deletion.go in Handlers,
-- handler_upsert_manifest.go and handler_mark_for_deletion.go in Handlers/Upsert; the YAML parser
-- and the digest are parameters. The time and the ids that a call makes up are arguments. All loops
-- are recursions over the lists that the code ranges over, so no fuel is needed.
--
-- Examples: runs of the theorems on a small cluster, with a table of documents as the collection
-- and a codec that knows one cluster.
--
-- Not modelled: the planning of single tasks and their pipelines (reconciliate_kubernetes.go,
-- reconciliate_loadbalancers.go and their like), the health checks, the creation of desired state,
-- the gRPC handlers that only read and the validation of input manifests; the workers (terraformer,
-- ansibler, kube-eleven, kuber), which drive external tools over files and processes; the operator
-- and the testing framework; logging and metrics.
pub mod Prelude
pub mod Spec
pub mod Pools
pub mod Manifest
pub mod Store
pub mod Manager
pub mod Examples
