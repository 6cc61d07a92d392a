-- ===== src/Engine/Cluster/Expanding.antt =====
-- cluster_inline_resolver.go, expandBundleStepActions of step_action.go and uniqueImages of engine.go:
-- what a pipeline backend gets of the tasks, and the images that it may fetch ahead.
use tkn_act.Base.{
  String, Bool, not, ◌&&◌, ◌==◌, Option, none, some, List, [], ◌∷◌, ◌++◌, if◌then◌else◌, map, keep,
  each, add, traverse, Map, lookup, Result, ok, err, ◌>>=◌,
}
use tkn_act.Base.Text.{contains}
use tkn_act.Base.Integers.{ℤ}
use tkn_act.Tekton.{Kube, Step, Sidecar, StepAction, TaskSpec, PipelineTask, Pipeline}
use tkn_act.Resolver.Scope.{Json, Context}
use tkn_act.Engine.StepActions.{ActionError, resolve_step_actions}
use tkn_act.Engine.StepTemplate.{apply_step_template}
use tkn_act.Engine.Lazy.{LazyError, lookup_task_spec_lazy}

-- why the tasks of a pipeline are not handed on
pub data ExpandError : Type 0 where
  bad_task bad_pipeline_task : String → ActionError → ExpandError

abbrev pub or_named :
    {A : Type 0} → (ActionError → ExpandError) → Result ActionError A → Result ExpandError A
or_named f (ok a) = ok a
or_named f (err e) = err (f e)

-- an image that can be fetched as it stands
abbrev pub is_pullable : String → Bool
is_pullable image = not (image == "") && not (contains "$(" image)

unfoldable pub add_all : List String → List String → List String
unfolding add
add_all [] seen = seen
add_all (x ∷ xs) seen = add_all xs (add x seen)

module _ {k : Kube} (json : Json) where
  module _ (parse_duration : String → Option ℤ)
      (registry : Option (String → Map String → Result String (List (TaskSpec k))))
      (ctx : Context) where
    unfoldable pub inline_one_pipeline_task : PipelineTask k → Result LazyError (PipelineTask k)
    inline_one_pipeline_task pt = elim pt.task_ref [
      | none ↦ ok pt
      | some ref ↦ if ref.resolver == "" then ok pt else (do
        spec ← lookup_task_spec_lazy json ctx parse_duration registry pt.name ref
        ok (record pt { task_spec = some spec; task_ref = none }))
    ]

    unfoldable pub inline_resolver_backed_tasks : Pipeline k → Result LazyError (Pipeline k)
    unfolding inline_one_pipeline_task
    inline_resolver_backed_tasks pl = do
      tasks ← traverse inline_one_pipeline_task pl.tasks
      finally ← traverse inline_one_pipeline_task pl.finally
      ok (record pl { tasks = tasks; finally = finally })

  module _ (actions : Map (StepAction k)) where
    unfoldable pub expand_tasks : Map (TaskSpec k) → Result ExpandError (Map (TaskSpec k))
    expand_tasks [] = ok []
    expand_tasks ((name, spec) ∷ tasks) = do
      s ← or_named (bad_task name) (resolve_step_actions json actions spec)
      rest ← expand_tasks tasks
      ok ((name, s) ∷ rest)

    unfoldable pub expand_pipeline_task : PipelineTask k → Result ExpandError (PipelineTask k)
    expand_pipeline_task pt = elim pt.task_spec [
      | none ↦ ok pt
      | some spec ↦ do
        s ← or_named (bad_pipeline_task pt.name) (resolve_step_actions json actions spec)
        ok (record pt { task_spec = some s })
    ]

    unfoldable pub expand_bundle_step_actions :
        Map (TaskSpec k) → Pipeline k → Result ExpandError (Map (TaskSpec k) × Pipeline k)
    unfolding expand_tasks expand_pipeline_task
    expand_bundle_step_actions bundle pl = do
      out ← expand_tasks bundle
      tasks ← traverse expand_pipeline_task pl.tasks
      finally ← traverse expand_pipeline_task pl.finally
      ok (out, record pl { tasks = tasks; finally = finally })

    -- The task's body, without a look at the registry.
    abbrev pub local_spec : Map (TaskSpec k) → PipelineTask k → Option (TaskSpec k)
    local_spec bundle pt = elim pt.task_ref [
      | none ↦ pt.task_spec
      | some ref ↦ if ref.resolver == "" then lookup ref.name bundle else none
    ]

    abbrev pub expanded_or_not : TaskSpec k → TaskSpec k
    expanded_or_not spec = elim (resolve_step_actions json actions spec) [ ok s ↦ s | err _ ↦ spec ]

    abbrev pub spec_images : TaskSpec k → List String
    spec_images spec =
        keep is_pullable (
          map (λ (s : Step k). s.image) spec.steps
          ++ map (λ (s : Sidecar k). s.image) spec.sidecars)

    -- one round of the loop over the tasks
    unfoldable pub task_images : Map (TaskSpec k) → PipelineTask k → List String
    unfolding apply_step_template
    task_images bundle pt = elim (local_spec bundle pt) [
      | none ↦ []
      | some spec ↦ spec_images (apply_step_template (expanded_or_not spec))
    ]

    unfoldable pub unique_images : Map (TaskSpec k) → Pipeline k → List String
    unfolding task_images add_all
    unique_images bundle pl = add_all (each (task_images bundle) (pl.tasks ++ pl.finally)) []
