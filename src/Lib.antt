-- ===== src/Lib.antt =====
-- The Achilles SDK: controllers for Kubernetes written as state machines.
--
-- A controller reconciles one object per request. `Reconcile` of pkg/fsm/internal/reconciler.go
-- reads the object, runs the states of the machine one after the other, applies the outputs that
-- each state leaves in its output set, merges the states' conditions into the object's status and
-- removes the finalizer of a deleted object. The parts, from the bottom up:
--
--   Prelude     lists, texts, equality tests and orders that every part shares
--   GoMap       Go's maps as association lists; the order of iteration is the list's order, and
--               what is proved holds for every such list
--   Api         the Kubernetes types and the third-party code, as the fields of one record `Env`,
--               and the monad of handlers: a history of requests, and a value or an error
--   Meta        pkg/meta: labels, finalizers, owner references, object references
--   Errors      pkg/errors: ignored errors, and the error of an object that is not ready
--   Status      pkg/status/conditions.go: readiness conditions
--   Sets        pkg/sets: `ComparableSet` (comparable_set.go), `ObjectSet` (object_set.go) and the
--               sorting of its `List`
--   Io          pkg/io: `Apply` and `ApplyStatus` (applicator.go), the apply options (options.go)
--   Fsm.Types   pkg/fsm/types: results (results.go) and output sets (output.go)
--   Fsm.Outputs pkg/fsm/io/outputs.go: an output set carried out against the API server
--   Fsm.Transitions
--               pkg/fsm/types/transitions.go: the transition functions that the SDK provides
--   Fsm.Machine the states (pkg/fsm/types/core.go) and the loop of `reconcile` over them.
--               `Machine.Runs` says as a relation, without fuel, how a machine may run
--   Fsm.Reconciler
--               `Reconcile` and `reconcile` of pkg/fsm/internal/reconciler.go. `Reconciler.Active`
--               puts a run of the machine together with what follows it, and `Reconciler.Deleted`
--               is about the whole of it for an object that is being deleted
--   Fsm.ClaimReconciler
--               `Reconcile` of pkg/fsm/internal/reconciler_claim.go
--   Fsm.Metrics pkg/fsm/metrics: `StartTimes` (internal/processing_duration.go), the labels
--               (types.go), the sink of Prometheus' vectors (sink.go), and `Recorder`, what the
--               controllers call (metrics.go). `Recorder.Calls` carries the calls that stand in a
--               reconciliation's history out on the metrics
--   Fsm.Handler pkg/fsm/handler: the predicate and the event handler that count triggers
--   Fsm.Events  pkg/fsm/events/events.go: the event recorder
--   Fsm.Builder, Fsm.ClaimBuilder
--               pkg/fsm/builder.go and pkg/fsm/claim_builder.go: what a controller is put together
--               of, as the calls into controller-runtime's builder in their order
--   Maps, Json  pkg/maps/maps.go and pkg/json/merge.go: merging maps, and JSON objects
--   ResourceGetter
--               pkg/gvk/getter.go: the resources that discovery offers and the scheme knows
--   Bootstrap   pkg/bootstrap/bootstrap.go: the options and flags, and `Start` as calls into
--               client-go and controller-runtime; a panic is an outcome of its own
--   Logging, RateLimiter, Must
--               pkg/logging, pkg/ratelimiter and pkg/must
--   Kubeconfig, Manifest
--               pkg/kubeconfig: kubeconfigs in Secrets; pkg/manifest and pkg/yaml: the objects of
--               a manifest, and an object with its type as YAML
--   Tests       small runs of all this
--
-- State. An API server answers a request by the whole history of requests, in any way; so other
-- clients may do to the objects what they like between two requests. A handler maps a history to a
-- longer one and returns a value or an error; a mutated Go object is an argument and a result. What
-- a transition function of the SDK's user does, its requests included, is an argument too.
--
-- Third-party stores. google/btree (`BTree`) and Prometheus' vectors (`MetricVecs`) are records of
-- operations with the laws that their documentation promises; the lemmas hold for any of them, and
-- Tests.SortedTree has one of each for the runs. Nothing is promised of an iteration that changes
-- the tree, as SetRangeFailed does; what rests on one has a hypothesis that says so.
--
-- Fuel. The loop over the states runs on fuel. The code stops at the first state whose name it has
-- seen, so fuel for more rounds than there are names of states is enough.
--
-- Numbers. A generation is a number that is not negative, as Kubernetes counts them; times and
-- durations are numbers of one unit, and no start time is later than the clock.
--
-- Not modelled: logs, traces and measured durations; the panic for a Go type that is not in the
-- scheme; the spec and data of objects, which are one opaque text; locks, since each operation that
-- takes one is atomic; the texts, the buckets and the registration of Prometheus' vectors;
-- pkg/encoding/json, a copy of Go's package with one function changed; pkg/test and pkg/internal,
-- which only serve the repository's own tests.
pub mod Prelude
pub mod GoMap
pub mod Api
pub mod Meta
pub mod Status
pub mod Sets
pub mod Errors
pub mod Io
pub mod Maps
pub mod Json
pub mod ResourceGetter
pub mod Logging
pub mod RateLimiter
pub mod Must
pub mod Bootstrap
pub mod Kubeconfig
pub mod Manifest
pub mod Fsm
pub mod Tests
