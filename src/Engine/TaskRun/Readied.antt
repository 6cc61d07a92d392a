-- ===== src/Engine/TaskRun/Readied.antt =====
-- What a task is once it is ready for the backend.
use tkn_act.Base.{
  Pairwise, String, ◌≡◌, refl, ◌∙◌, ap, subst, Bool, true, false, arith, none, List, [], ◌∷◌, map,
  all, any, is_some, Option-cases, Map, lookup, or_else, Result, ok, err, Result-cases, bind_parts,
  inl, inr, ◌||◌, option_or,
}
use tkn_act.Base.Integers.{ℤ}
use tkn_act.Tekton.{Kube, ParamValue, Step, StepTemplate, TaskSpec, PipelineTask}
use tkn_act.Resolver.Scope.{Json, Context}
use tkn_act.Engine.When.{evaluate_when}
use tkn_act.Engine.StepActions.{resolve_step_actions}
use tkn_act.Engine.StepActions.Inlined.{resolve_step_actions-clean}
use tkn_act.Engine.StepTemplate.{inherit, apply_step_template}
use tkn_act.Engine.Substitution.{substitute_spec, bind_task_param_value}
use tkn_act.Engine.Substitution.Substituted.{
  StepResolved, SpecResolved, substitute_spec-SpecResolved,
}
use tkn_act.Engine.TaskInput.{
  Stop, RunError, bad_action, bad_field, no_results_dir, or_fail, Invocation, RunInput,
}
use tkn_act.Engine.TaskScope.{task_scope}
use tkn_act.Engine.TaskRun.{
  find_spec, pass_when, provide_volumes, lazy_timeout, mount_workspaces, bind_task_params,
  default_task_params, ready_task, provide,
}
use tkn_act.Engine.TaskRun.Bound.{
  binds, last_default, last_bound, last_mount, default_task_params-last, bind_task_params-last,
  mount_workspaces-last,
}

pub or_fail-ok :
    {E A : Type 0} (f : E → RunError) (r : Result E A) (a : A) → or_fail f r ≡ ok a → r ≡ ok a
or_fail-ok f (ok b) a h = ap ok (cc)
or_fail-ok f (err e) a h = absurd (cc)

ok_inj : {A : Type 0} (a b : A) → ◌≡◌ {A = Result Stop A} (ok a) (ok b) → a ≡ b
ok_inj a b h = cc

pass_when-lets :
    {k : Kube} (i : RunInput k) (ctx : Context) (pt : PipelineTask k) (u : Unit)
    → pass_when i ctx pt ≡ ok u
    → evaluate_when i.json ctx pt.when ≡ ok none
unfolding pass_when
pass_when-lets i ctx pt u h = elim (Result-cases (evaluate_when i.json ctx pt.when)) [
  | inr (e, bad) ↦ absurd (ground (arith, h, bad))
  | inl (o, good) ↦ elim (Option-cases o) [
    | inl nil ↦ ground (arith, good, nil)
    | inr ((w, input), there) ↦ absurd (ground (arith, h, good, there))
  ]
]

module _ {k : Kube} where
  abbrev pub has_ref : Step k → Bool
  has_ref st = is_some st.ref

  inherit-refs :
      (t : StepTemplate k) (steps : List (Step k))
      → any has_ref (map (inherit t) steps) ≡ any has_ref steps
  unfolding inherit
  inherit-refs t [] = refl
  inherit-refs t (st ∷ steps) = ap (λ b. is_some st.ref || b) (inherit-refs t steps)

  apply_step_template-refs :
      (spec : TaskSpec k)
      → any has_ref spec.steps ≡ false
      → any has_ref (apply_step_template spec).steps ≡ false
  unfolding apply_step_template
  apply_step_template-refs spec h = elim (Option-cases spec.step_template) [
    | inl nil ↦ ground (arith, nil, h)
    | inr (t, there) ↦ ground (arith, there, h, inherit-refs t spec.steps)
  ]

  resolved-refs :
      (json : Json) (ctx : Context) (steps out : List (Step k))
      → Pairwise (StepResolved json ctx) steps out
      → any has_ref out ≡ any has_ref steps
  resolved-refs json ctx [] [] p = refl
  resolved-refs json ctx [] (s ∷ out) p = absurd p
  resolved-refs json ctx (st ∷ steps) [] p = absurd p
  resolved-refs json ctx (st ∷ steps) (s ∷ out) p =
      ground (arith, ap has_ref p.0.1, resolved-refs json ctx steps out p.1)

module _ {k : Kube} (i : RunInput k) (ctx : Context) (pt : PipelineTask k) where
  -- Params and a task that come out of the resolution against `ctx`.
  pub record IsResolved (params : Map ParamValue) (task : TaskSpec k) : Type 0 where
    pub found : TaskSpec k
    pub inlined : TaskSpec k
    pub let_run : evaluate_when i.json ctx pt.when ≡ ok none
    pub is_found : find_spec i ctx pt ≡ ok found
    pub is_inlined : resolve_step_actions i.json i.step_actions found ≡ ok inlined
    pub fields :
        SpecResolved i.json
          (task_scope i ctx (apply_step_template inlined) pt params)
          (apply_step_template inlined)
          task
    pub no_refs : any has_ref task.steps ≡ false
    pub bound : all (λ p. binds (bind_task_param_value i.json ctx p.value)) pt.params ≡ true
    pub texts :
        (name : String)
        → lookup name params
          ≡ option_or
              (last_bound i.json ctx name pt.params)
              (last_default name (apply_step_template inlined).params)

  pub ready_task-IsResolved :
      (params : Map ParamValue) (task : TaskSpec k)
      → ready_task i ctx pt ≡ ok (params, task)
      → IsResolved params task
  unfolding ready_task lookup
  ready_task-IsResolved params task h =
      let (u, lets, h1) = bind_parts (pass_when i ctx pt) _ (params, task) h in
      let (found, is_found, h2) = bind_parts (find_spec i ctx pt) _ (params, task) h1 in
      let (inlined, is_in, h3) =
        bind_parts (or_fail bad_action (resolve_step_actions i.json i.step_actions found)) _
          (params, task) h2 in
      let spec = apply_step_template inlined in
      let start = default_task_params spec.params [] in
      let (ps, are_params, h4) =
        bind_parts (bind_task_params i.json ctx pt.params start) _ (params, task) h3 in
      let (out, is_out, done) =
        bind_parts (or_fail bad_field (substitute_spec i.json (task_scope i ctx spec pt ps) spec)) _
          (params, task) h4 in
      let (clean, _, _) =
        resolve_step_actions-clean i.json i.step_actions found inlined
          (or_fail-ok bad_action _ inlined is_in) in
      let fields =
        substitute_spec-SpecResolved i.json (task_scope i ctx spec pt ps) spec out
          (or_fail-ok bad_field _ out is_out) in
      let (every, last) = bind_task_params-last i.json ctx pt.params start ps are_params in
      let same : (ps, out) ≡ (params, task) = ok_inj _ _ done in
      subst (λ q. IsResolved q.0 q.1) same
        (record {
          found = found;
          inlined = inlined;
          let_run = pass_when-lets i ctx pt u lets;
          is_found = is_found;
          is_inlined = or_fail-ok bad_action _ inlined is_in;
          fields = fields;
          no_refs =
              resolved-refs i.json (task_scope i ctx spec pt ps) spec.steps out.steps fields.steps
              ∙ apply_step_template-refs inlined clean;
          bound = every;
          texts = λ name. ground (arith, last name, default_task_params-last spec.params [] name);
        })

module _ {k : Kube} (i : RunInput k) (vars : Map String) (pt : PipelineTask k) where
  -- A call made for params and a task, with what it needs provided.
  pub record IsProvided (ps : Map ParamValue) (spec : TaskSpec k) (call : Invocation k)
      : Type 0 where
    pub name : call.task_name ≡ pt.name
    pub task : call.task ≡ spec
    pub params : call.params ≡ ps
    pub context : call.context_vars ≡ vars
    pub provisioned : all (λ w. is_some (lookup w.workspace i.workspaces)) pt.workspaces ≡ true
    pub mounts :
        (name : String) → lookup name call.workspaces ≡ last_mount i.workspaces name pt.workspaces
    pub volumes : provide_volumes i pt spec.volumes ≡ ok call.volume_hosts

  pub provide-IsProvided :
      (params : Map ParamValue) (task : TaskSpec k) (deadline : ℤ) (call : Invocation k)
      → provide i vars pt params task ≡ ok (deadline, call)
      → IsProvided params task call × (lazy_timeout i pt task ≡ ok deadline)
  unfolding provide lookup
  provide-IsProvided params task deadline call h =
      let (mounts, are_mounts, h1) =
        bind_parts (mount_workspaces i.workspaces pt.workspaces []) _ (deadline, call) h in
      let (dir, is_dir, h2) =
        bind_parts
          (or_fail no_results_dir
            (i.provision_results_dir (or_else (lookup "__results" i.workspaces) "") pt.name))
          _ (deadline, call) h1 in
      let (volumes, are_volumes, h3) =
        bind_parts (provide_volumes i pt task.volumes) _ (deadline, call) h2 in
      let (d, is_d, done) = bind_parts (lazy_timeout i pt task) _ (deadline, call) h3 in
      let (every, mounted) =
        mount_workspaces-last i.workspaces pt.workspaces [] mounts are_mounts in
      let same = ok_inj _ (deadline, call) done in
      subst (λ q. IsProvided params task q.1 × (lazy_timeout i pt task ≡ ok q.0)) same
        (
          record {
            name = refl;
            task = refl;
            params = refl;
            context = refl;
            provisioned = every;
            mounts = λ name. ground (arith, mounted name);
            volumes = are_volumes;
          },
          is_d,
        )
