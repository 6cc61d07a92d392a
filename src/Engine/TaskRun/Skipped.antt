-- ===== src/Engine/TaskRun/Skipped.antt =====
-- Only the `when` expressions of a task skip it.
use tkn_act.Base.{
  ℕ, String, ◌≡◌, refl, ◌∙◌, Bool-cases, arith, Option, none, some, List, [], ◌∷◌, Option-cases,
  Map, lookup, insert, Result, ok, err, ◌>>=◌, Result-cases, inl, inr, ◌==◌, not, ◌&&◌,
}
use tkn_act.Tekton.{
  Kube, ParamValue, Param, WhenExpression, WorkspaceBinding, TaskSpec, Volume, PipelineTask,
}
use tkn_act.Resolver.Scope.{Json, Context}
use tkn_act.Engine.StepTemplate.{apply_step_template}
use tkn_act.Engine.Substitution.{bind_task_param_value, substitute_spec}
use tkn_act.Engine.Lazy.{lookup_task_spec_lazy}
use tkn_act.Engine.TaskInput.{
  Stop, skips, fails, infra_fails, RunError, no_results_dir, bad_action, bad_field, lazy, or_fail,
  or_infra_fail, bad_volume, WorkspaceMount, FinallyStatus, RunInput, is_lazy,
}
use tkn_act.Engine.TaskScope.{pipeline_scope, task_scope}
use tkn_act.Engine.TaskRun.{
  lookup_task_spec, mount_workspaces, bind_task_params, find_spec, pass_when, provide_volumes,
  lazy_timeout, ready_task, provide, prepare,
}

abbrev pub skip_in : {A : Type 0} → Result Stop A → Option (WhenExpression × String)
skip_in (ok _) = none
skip_in (err (skips w input)) = some (w, input)
skip_in (err (fails _)) = none
skip_in (err (infra_fails _)) = none

-- Only the first line of a block skips where the rest never does.
bind-skip :
    {A B : Type 0} (r : Result Stop A) (next : A → Result Stop B)
    → ((a : A) → skip_in (next a) ≡ none)
    → skip_in (r >>= next) ≡ skip_in r
bind-skip (ok a) next plain = plain a
bind-skip (err (skips w input)) next plain = refl
bind-skip (err (fails e)) next plain = refl
bind-skip (err (infra_fails e)) next plain = refl

or_fail-skip : {E A : Type 0} (f : E → RunError) (r : Result E A) → skip_in (or_fail f r) ≡ none
or_fail-skip f (ok a) = refl
or_fail-skip f (err e) = refl

or_infra_fail-skip :
    {A : Type 0} (f : String → RunError) (r : Result String A) → skip_in (or_infra_fail f r) ≡ none
or_infra_fail-skip f (ok a) = refl
or_infra_fail-skip f (err e) = refl

mount_workspaces-skip :
    (hosts : Map String) (ws : List WorkspaceBinding) (out : Map WorkspaceMount)
    → skip_in (mount_workspaces hosts ws out) ≡ none
unfolding mount_workspaces
mount_workspaces-skip hosts [] out = refl
mount_workspaces-skip hosts (w ∷ ws) out = elim (Option-cases (lookup w.workspace hosts)) [
  | inl missing ↦ ground (arith, missing)
  | inr (host, here) ↦ ground (
    arith,
    here,
    mount_workspaces-skip hosts ws
        (insert w.name (record { host_path = host; sub_path = w.sub_path }) out),
  )
]

bind_task_params-skip :
    (json : Json) (ctx : Context) (ps : List Param) (out : Map ParamValue)
    → skip_in (bind_task_params json ctx ps out) ≡ none
unfolding bind_task_params
bind_task_params-skip json ctx [] out = refl
bind_task_params-skip json ctx (p ∷ ps) out =
    elim (Result-cases (bind_task_param_value json ctx p.value)) [
      | inl (v, good) ↦
          ground (arith, good, bind_task_params-skip json ctx ps (insert p.name v out))
      | inr (e, bad) ↦ ground (arith, bad)
    ]

module _ {k : Kube} (i : RunInput k) where
  find_spec-skip : (ctx : Context) (pt : PipelineTask k) → skip_in (find_spec i ctx pt) ≡ none
  unfolding find_spec
  find_spec-skip ctx pt = elim (Option-cases pt.task_ref) [
    | inl nil ↦ ground (arith, nil, or_fail-skip (λ e. e) (lookup_task_spec i.tasks pt))
    | inr (ref, there) ↦ elim (Bool-cases (ref.resolver == "")) [
      | inl named ↦
          ground (arith, there, named, or_fail-skip (λ e. e) (lookup_task_spec i.tasks pt))
      | inr remote ↦ ground (
        arith,
        there,
        remote,
        or_fail-skip lazy
            (lookup_task_spec_lazy i.json ctx i.parse_duration i.registry pt.name ref),
      )
    ]
  ]

  provide_volumes-skip :
      (pt : PipelineTask k) (vs : List Volume) → skip_in (provide_volumes i pt vs) ≡ none
  unfolding provide_volumes
  provide_volumes-skip pt [] = refl
  provide_volumes-skip pt (v ∷ vs) = elim (Option-cases i.volume_resolver) [
    | inl nil ↦ ground (arith, nil)
    | inr (f, there) ↦ ground (arith, there, or_infra_fail-skip bad_volume (f pt.name (v ∷ vs)))
  ]

  lazy_timeout-skip :
      (pt : PipelineTask k) (task : TaskSpec k) → skip_in (lazy_timeout i pt task) ≡ none
  unfolding lazy_timeout
  lazy_timeout-skip pt task =
      elim (Bool-cases (is_lazy pt.task_ref && pt.timeout == "" && not (task.timeout == ""))) [
        | inr plain ↦ ground (arith, plain)
        | inl late ↦ elim (Option-cases (i.parse_duration task.timeout)) [
          | inl bad ↦ ground (arith, late, bad)
          | inr (d, good) ↦ ground (arith, late, good)
        ]
      ]

  provide-skip :
      (vars : Map String) (pt : PipelineTask k) (params : Map ParamValue) (task : TaskSpec k)
      → skip_in (provide i vars pt params task) ≡ none
  unfolding provide
  provide-skip vars pt params task =
      bind-skip (mount_workspaces i.workspaces pt.workspaces []) _ (λ mounts.
        bind-skip _ _ (λ dir.
          bind-skip (provide_volumes i pt task.volumes) _ (λ volumes.
            bind-skip (lazy_timeout i pt task) _ (λ d. refl) ∙ lazy_timeout-skip pt task)
          ∙ provide_volumes-skip pt task.volumes)
        ∙ or_fail-skip no_results_dir _)
      ∙ mount_workspaces-skip i.workspaces pt.workspaces []

  ready_task-skip :
      (ctx : Context) (pt : PipelineTask k)
      → skip_in (ready_task i ctx pt) ≡ skip_in (pass_when i ctx pt)
  unfolding ready_task
  ready_task-skip ctx pt = bind-skip (pass_when i ctx pt) _ (λ u.
      bind-skip (find_spec i ctx pt) _ (λ found.
        bind-skip _ _ (λ inlined.
          bind-skip (bind_task_params i.json ctx pt.params _) _ (λ params.
            let spec = apply_step_template inlined in
            let out = substitute_spec i.json (task_scope i ctx spec pt params) spec in
            bind-skip (or_fail bad_field out) (λ r. ok (params, r)) (λ r. refl)
            ∙ or_fail-skip bad_field out)
          ∙ bind_task_params-skip i.json ctx pt.params _)
        ∙ or_fail-skip bad_action _)
      ∙ find_spec-skip ctx pt)

  -- An attempt is skipped where its `when` expressions say so, and nowhere else.
  pub prepare-skip :
      (fin : Option FinallyStatus) (n : ℕ) (pt : PipelineTask k) (results : Map (Map String))
      → skip_in (prepare i fin n pt results)
        ≡ skip_in (pass_when i (pipeline_scope i fin n pt results) pt)
  unfolding prepare
  prepare-skip fin n pt results =
      bind-skip (ready_task i (pipeline_scope i fin n pt results) pt) _
        (λ r. provide-skip (pipeline_scope i fin n pt results).context_vars pt r.0 r.1)
      ∙ ready_task-skip (pipeline_scope i fin n pt results) pt
