-- ===== src/Engine/TaskRun/Stopped.antt =====
-- What keeps an attempt at a task from the call of the backend.
use tkn_act.Base.{
  ℕ, Option, String, ◌≡◌, refl, false, arith, List, [], ◌∷◌, all, is_some, or_else, insert, lookup,
  Map, Option-cases, Result, ok, err, Result-cases, bind_stops, ◌⊎◌, inl, inr,
}
use tkn_act.Tekton.{
  Kube, Param, ParamValue, WhenExpression, WorkspaceBinding, TaskSpec, PipelineTask,
}
use tkn_act.Resolver.Scope.{Json, Context, LookupError}
use tkn_act.Engine.When.{evaluate_when}
use tkn_act.Engine.StepActions.{ActionError, resolve_step_actions}
use tkn_act.Engine.StepTemplate.{apply_step_template}
use tkn_act.Engine.Substitution.{FieldError, substitute_spec, bind_task_param_value}
use tkn_act.Engine.TaskInput.{
  Stop, skips, RunError, bad_action, bad_field, no_results_dir, or_fail, RunInput, FinallyStatus,
  WorkspaceMount,
}
use tkn_act.Engine.TaskScope.{task_scope, pipeline_scope}
use tkn_act.Engine.TaskRun.{
  find_spec, pass_when, provide_volumes, lazy_timeout, mount_workspaces, bind_task_params,
  default_task_params, ready_task, provide, prepare,
}
use tkn_act.Engine.TaskRun.Bound.{binds}
use tkn_act.Engine.TaskRun.Readied.{or_fail-ok}

or_fail-stops :
    {E A : Type 0} (f : E → RunError) (r : Result E A) (s : Stop)
    → or_fail f r ≡ err s
    → (e : E) × (r ≡ err e)
or_fail-stops f (ok a) s h = absurd (cc)
or_fail-stops f (err e) s h = (e, refl)

bind_task_params-stops :
    (json : Json) (ctx : Context) (ps : List Param) (out : Map ParamValue) (s : Stop)
    → bind_task_params json ctx ps out ≡ err s
    → all (λ (p : Param). binds (bind_task_param_value json ctx p.value)) ps ≡ false
unfolding bind_task_params
bind_task_params-stops json ctx [] out s h = absurd (cc)
bind_task_params-stops json ctx (p ∷ ps) out s h =
    elim (Result-cases (bind_task_param_value json ctx p.value)) [
      | inr (e, bad) ↦ ground (arith, bad)
      | inl (v, good) ↦ ground (
        arith,
        good,
        bind_task_params-stops json ctx ps (insert p.name v out) s (ground (arith, h, good)),
      )
    ]

mount_workspaces-stops :
    (hosts : Map String) (ws : List WorkspaceBinding) (out : Map WorkspaceMount) (s : Stop)
    → mount_workspaces hosts ws out ≡ err s
    → all (λ (w : WorkspaceBinding). is_some (lookup w.workspace hosts)) ws ≡ false
unfolding mount_workspaces
mount_workspaces-stops hosts [] out s h = absurd (cc)
mount_workspaces-stops hosts (w ∷ ws) out s h = elim (Option-cases (lookup w.workspace hosts)) [
  | inl missing ↦ ground (arith, missing)
  | inr (host, here) ↦ ground (
    arith,
    here,
    mount_workspaces-stops hosts ws
        (insert w.name (record { host_path = host; sub_path = w.sub_path }) out) s
        (ground (arith, h, here)),
  )
]

-- Something is wrong with the task, or is not there that it needs.
pub data Obstacle {k : Kube} (i : RunInput k) (ctx : Context) (pt : PipelineTask k) : Type 0 where
  undecided : (e : LookupError) → evaluate_when i.json ctx pt.when ≡ err e → Obstacle i ctx pt
  unfound : (s : Stop) → find_spec i ctx pt ≡ err s → Obstacle i ctx pt
  not_inlined :
      (found : TaskSpec k) (e : ActionError)
      → find_spec i ctx pt ≡ ok found
      → resolve_step_actions i.json i.step_actions found ≡ err e
      → Obstacle i ctx pt
  unbound :
      all (λ (p : Param). binds (bind_task_param_value i.json ctx p.value)) pt.params ≡ false
      → Obstacle i ctx pt
  unresolved :
      (found inlined : TaskSpec k) (params : Map ParamValue) (e : FieldError)
      → find_spec i ctx pt ≡ ok found
      → resolve_step_actions i.json i.step_actions found ≡ ok inlined
      → substitute_spec i.json
          (task_scope i ctx (apply_step_template inlined) pt params)
          (apply_step_template inlined)
        ≡ err e
      → Obstacle i ctx pt
  unprovisioned :
      all (λ (w : WorkspaceBinding). is_some (lookup w.workspace i.workspaces)) pt.workspaces
        ≡ false
      → Obstacle i ctx pt
  no_directory :
      (parent message : String)
      → i.provision_results_dir parent pt.name ≡ err message
      → Obstacle i ctx pt
  no_volumes :
      (params : Map ParamValue) (task : TaskSpec k) (s : Stop)
      → ready_task i ctx pt ≡ ok (params, task)
      → provide_volumes i pt task.volumes ≡ err s
      → Obstacle i ctx pt
  no_deadline :
      (params : Map ParamValue) (task : TaskSpec k) (s : Stop)
      → ready_task i ctx pt ≡ ok (params, task)
      → lazy_timeout i pt task ≡ err s
      → Obstacle i ctx pt

module _ {k : Kube} (i : RunInput k) (ctx : Context) (pt : PipelineTask k) where
  pass_when-stops :
      (s : Stop)
      → pass_when i ctx pt ≡ err s
      → ((w : WhenExpression) × (input : String) × (s ≡ skips w input)) ⊎ Obstacle i ctx pt
  unfolding pass_when
  pass_when-stops s h = elim (Result-cases (evaluate_when i.json ctx pt.when)) [
    | inr (e, bad) ↦ inr (undecided e bad)
    | inl (o, good) ↦ elim (Option-cases o) [
      | inl nil ↦ absurd (ground (arith, h, good, nil))
      | inr ((w, input), there) ↦ inl (w, input, ground (arith, h, good, there))
    ]
  ]

  pub ready_task-stops :
      (s : Stop)
      → ready_task i ctx pt ≡ err s
      → ((w : WhenExpression) × (input : String) × (s ≡ skips w input)) ⊎ Obstacle i ctx pt
  unfolding ready_task
  ready_task-stops s h = elim (bind_stops (pass_when i ctx pt) _ s h) [
    | inl held ↦ pass_when-stops s held
    | inr (u, lets, h1) ↦ elim (bind_stops (find_spec i ctx pt) _ s h1) [
      | inl bad ↦ inr (unfound s bad)
      | inr (found, is_found, h2) ↦
          let inline = or_fail bad_action (resolve_step_actions i.json i.step_actions found) in
          elim (bind_stops inline _ s h2) [
            | inl bad ↦
                let (e, wrong) = or_fail-stops bad_action _ s bad in
                inr (not_inlined found e is_found wrong)
            | inr (inlined, is_in, h3) ↦
                let spec = apply_step_template inlined in
                let start = default_task_params spec.params [] in
                elim (bind_stops (bind_task_params i.json ctx pt.params start) _ s h3) [
                  | inl bad ↦
                      inr (unbound (bind_task_params-stops i.json ctx pt.params start s bad))
                  | inr (params, _, h4) ↦
                      let texts =
                        or_fail bad_field
                          (substitute_spec i.json (task_scope i ctx spec pt params) spec) in
                      elim (bind_stops texts _ s h4) [
                        | inl bad ↦
                            let (e, wrong) = or_fail-stops bad_field _ s bad in
                            inr (
                              unresolved found inlined params e is_found
                                (or_fail-ok bad_action _ inlined is_in) wrong)
                        | inr (out, _, h5) ↦ absurd (cc)
                      ]
                ]
          ]
    ]
  ]

  provide-stops :
      (vars : Map String) (params : Map ParamValue) (task : TaskSpec k) (s : Stop)
      → ready_task i ctx pt ≡ ok (params, task)
      → provide i vars pt params task ≡ err s
      → Obstacle i ctx pt
  unfolding provide
  provide-stops vars params task s made h =
      elim (bind_stops (mount_workspaces i.workspaces pt.workspaces []) _ s h) [
        | inl bad ↦ unprovisioned (mount_workspaces-stops i.workspaces pt.workspaces [] s bad)
        | inr (mounts, _, h1) ↦
            let parent = or_else (lookup "__results" i.workspaces) "" in
            let directory = or_fail no_results_dir (i.provision_results_dir parent pt.name) in
            elim (bind_stops directory _ s h1) [
              | inl bad ↦
                  let (message, wrong) = or_fail-stops no_results_dir _ s bad in
                  no_directory parent message wrong
              | inr (dir, _, h2) ↦ elim (bind_stops (provide_volumes i pt task.volumes) _ s h2) [
                | inl bad ↦ no_volumes params task s made bad
                | inr (volumes, _, h3) ↦ elim (bind_stops (lazy_timeout i pt task) _ s h3) [
                  | inl bad ↦ no_deadline params task s made bad
                  | inr (d, _, h4) ↦ absurd (cc)
                ]
              ]
            ]
      ]

-- An attempt that is not prepared is skipped by a `when` expression, or has an obstacle.
pub prepare-stops :
    {k : Kube} (i : RunInput k) (fin : Option FinallyStatus) (retry_count : ℕ) (pt : PipelineTask k)
    (results : Map (Map String)) (s : Stop)
    → prepare i fin retry_count pt results ≡ err s
    → ((w : WhenExpression) × (input : String) × (s ≡ skips w input))
      ⊎ Obstacle i (pipeline_scope i fin retry_count pt results) pt
unfolding prepare
prepare-stops i fin retry_count pt results s h =
    let ctx = pipeline_scope i fin retry_count pt results in
    elim (bind_stops (ready_task i ctx pt) _ s h) [
      | inl bad ↦ ready_task-stops i ctx pt s bad
      | inr ((params, task), made, h1) ↦
          inr (provide-stops i ctx pt ctx.context_vars params task s made h1)
    ]
