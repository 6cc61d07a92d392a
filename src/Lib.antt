-- ===== src/Lib.antt =====
-- tkn-act runs a Tekton pipeline on one machine. This library models the engine that schedules a
-- pipeline's tasks, the resolver that substitutes `$(...)` references, the validator that runs before them,
-- the registry of remote references, the steps of a task on docker and the store of recorded runs, and
-- proves what they promise.
--
-- How the parts interact. The engine (internal/engine) expands a pipeline's matrices, builds a graph of
-- the main tasks from `runAfter` and from references to results, asks the graph (internal/engine/dag) for
-- its levels, and dispatches each level to goroutines under the budgets of the run. Before a dispatch it
-- asks whether an ancestor holds the task back. Each task runs through a retry loop; its outcome and its
-- results are recorded under a mutex, and a finished matrix folds its results into its parent. Params and
-- `when` expressions go through the resolver (internal/resolver). A pipeline backend (internal/backend) gets
-- a run as a whole instead, with every remote reference and every step action already replaced.
--
-- Which file models which part:
-- - Base and its children: Go's maps, string sets, sorting, integers and text operations, and their lemmas.
-- - Tekton: the records of internal/tektontypes/types.go. What Kubernetes defines is a parameter `Kube`.
--   Tekton/Rows: MaterializeMatrixRows, and the loop over positions that the engine has too.
-- - Dag: internal/engine/dag/dag.go: AddNode, AddEdge, Levels (`levels`), Descendants (`descendants`).
-- - Engine/Outcome: run.go and the events of internal/reporter/event.go that the engine emits.
-- - Engine/Policy: policy.go, the retry loop and the timeout of an attempt. What it does is an argument.
-- - Engine/Budgets: pipeline_timeouts.go, and the rule of internal/validator/validator.go on its fields.
-- - Engine/Finally: computeFinallyStatus of substitution.go.
-- - Engine/References: implicit_edges.go.
-- - Engine/Blocking: upstreamBlocksDispatch, missingResultRefs and upstream of engine.go.
-- - Engine/Matrix, Engine/Aggregate: matrix.go. Engine/Merge: mergeParams, and mergeEnv of step_template.go.
-- - Engine/StepTemplate: step_template.go. Engine/When: when.go. Engine/Params: the params part of run.go.
-- - Engine/StepActions: step_action.go, the inlining of actions into the steps of a task.
-- - Engine/TaskRun: runOne of engine.go: one attempt, up to the call of the backend and its answer.
--   Engine/TaskInput: what it is given. Engine/TaskScope: the contexts that it builds, with what they take
--   from substitution.go and workspace_paths.go. Engine/Lazy: lazy_resolve.go, and
--   Engine/Lazy/Fetched with the registry behind it. Engine/Substitution:
--   substituteSpec of engine.go and bindTaskParamValue of substitution.go.
-- - Engine/PipelineResults: pipeline_results.go. Engine/PipelineResults/Declared: what a result means.
-- - Engine/Eager: eager_pipelineref.go, and RunPipeline up to the pipeline that it runs.
-- - Engine/Cluster, Engine/Cluster/Run: runViaPipelineBackend of engine.go. Engine/Cluster/Expanding:
--   cluster_inline_resolver.go, uniqueImages, expandBundleStepActions. Engine/Cluster/Reporting: what is
--   emitted afterwards.
-- - Engine/Run: the part of RunPipeline in engine.go that builds the graph and records outcomes.
-- - Engine/Schedule: the level loop of RunPipeline as a step relation: the dispatching loop, the goroutines
--   and the clock take steps in any order. Engine/Schedule/Invariant holds what every state keeps.
-- - Engine/FinallyPhase: the rest of RunPipeline, as steps likewise: the finally tasks, and the run's status.
-- - Resolver, Resolver/Scope, Resolver/Lookup: internal/resolver/resolver.go. JSON decoding is a parameter `Json`.
-- - Runstore: internal/runstore: index.go, liveness.go and the look-up of store.go. Runstore/Retention: gc.go.
--   Runstore/View: the operations of store.go as steps on the index on disk.
-- - Validator: internal/validator/validator.go, Validator/Scans: refs.go. Validator/Names has rules 1 to 5,
--   Validator/Timing 6 to 8b, Validator/References 8c to 8g, Validator/Steps 8h to 17, Validator/Matrices 18
--   and 19; the numbers are those of the source's comments. Validator/Apart: what rules 4 and 5 leave of the
--   names in a run.
-- - Refresolver: internal/refresolver/refresolver.go: the registry; Refresolver/Cached: Resolve, with Get and
--   Put of cache.go. Refresolver/Sessions has the requests of a run one after the other.
-- - Docker: the checks of internal/backend/docker/security.go; Docker/Loop: RunTask of docker.go;
--   Docker/Ran, Docker/Walk: which steps run; Docker/Ended: how a task ends.
-- - Examples: concrete runs.
--
-- State and shared objects. What the goroutines share (outcomes, results, the overall status, events) is
-- the record `RunState`; a step does what the source does under the mutex. The time that passes between
-- a check and the action after it is a step of its own where another goroutine can act in between.
--
-- Bounds and fuel. `levels` runs one round for each node, `descendants` one for each edge target and two
-- more, and `odometer` one for each row that it makes; their theorems say that this is enough. Where
-- Go's 64-bit integers can wrap around for an input that is accepted, the model does so too: the sum of the
-- phases in the validator's rule on timeouts (`add_64`), the number of rows of a matrix, which is kept as
-- the bits of an int (`mul_64`, `signed_64`), the number of attempts, and the age of a run. Elsewhere
-- durations and times are integers without a bound. A status is a data type of the texts that the code writes.
--
-- Not modelled: the cluster backend, the requests of the docker backend, the protocols of remote
-- references, loading of YAML, output and the command line, which are input and output around the parts above.
mod Base
pub mod Tekton
pub mod Dag
pub mod Engine
pub mod Resolver
pub mod Runstore
pub mod Validator
pub mod Refresolver
pub mod Docker
mod Examples
