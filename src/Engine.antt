-- ===== src/Engine.antt =====
-- internal/engine: how one PipelineRun is scheduled. The children follow the files of the package.
pub mod Outcome
pub mod Policy
pub mod Budgets
pub mod Cluster
pub mod Eager
pub mod Finally
pub mod References
pub mod Blocking
pub mod Aggregate
pub mod Run
pub mod Schedule
pub mod Matrix
pub mod Merge
pub mod StepTemplate
pub mod When
pub mod Params
pub mod StepActions
pub mod PipelineResults
pub mod Substitution
pub mod Lazy
pub mod TaskInput
pub mod TaskScope
pub mod TaskRun
pub mod FinallyPhase
