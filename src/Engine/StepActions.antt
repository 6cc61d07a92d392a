-- ===== src/Engine/StepActions.antt =====
-- step_action.go: a step that refers to a StepAction gets the action's body.
pub mod Bound
pub mod Inlined
pub mod Failing
use tkn_act.Base.{
  String, Bool, true, false, ◌&&◌, ◌||◌, not, ◌==◌, Option, none, some, List, [], ◌∷◌, ◌++◌,
  if◌then◌else◌, Map, lookup, insert, is_some, any, Result, ok, err, ◌>>=◌,
}
use tkn_act.Tekton.{
  Kube, ParamType, unset, string, array, object, Param, ParamSpec, EnvVar, Step, StepAction,
  TaskSpec,
}
use tkn_act.Resolver.Scope.{Context, Json, LookupError}
use tkn_act.Resolver.{defer_all, substitute, substitute_args}

pub data ActionError : Type 0 where
  inline_body : String → ActionError
  unknown_action : String → String → ActionError
  bad_default : String → String → ActionError
  substitution : LookupError → ActionError

abbrev pub lift : {A : Type 0} → Result LookupError A → Result ActionError A
lift (ok a) = ok a
lift (err e) = err (substitution e)

abbrev pub is_string : ParamType → Bool
is_string unset = true
is_string string = true
is_string array = false
is_string object = false

-- the defaults, of which only texts are honoured
unfoldable pub default_params :
    String → List ParamSpec → Map String → Result ActionError (Map String)
default_params step [] params = ok params
default_params step (d ∷ decls) params = elim d.default [
  | none ↦ default_params step decls params
  | some v ↦
      if is_string v.type
      then default_params step decls (insert d.name v.string_val params)
      else err (bad_default step d.name)
]

-- what the calling step binds, as it is written
unfoldable pub bind_params : List Param → Map String → Map String
bind_params [] params = params
bind_params (p ∷ ps) params = bind_params ps (insert p.name p.value.string_val params)

abbrev pub scoped : Map String → Context
scoped params = record {
  params = params;
  array_params = [];
  object_params = [];
  results = [];
  context_vars = [];
  step_results = none;
  current_step = "";
  bound_workspaces = none;
  tasks_status = "";
  task_statuses = none;
  workspace_paths = [];
}

abbrev pub is_nil {ℓ} : {A : Type ℓ} → List A → Bool
is_nil [] = true
is_nil (_ ∷ _) = false

module _ {k : Kube} where
  -- assertNoInlineBody finds a body
  abbrev pub has_inline_body : Step k → Bool
  has_inline_body st =
      not (st.image == "")
      || not (is_nil st.command)
      || not (is_nil st.args)
      || not (st.script == "")
      || not (is_nil st.env)
      || not (st.working_dir == "")
      || not (st.image_pull_policy == "")
      || is_some st.resources
      || not (is_nil st.results)

  module _ (json : Json) where
    unfoldable pub inline_env : Context → List (EnvVar k) → Result LookupError (List (EnvVar k))
    inline_env ctx [] = ok []
    inline_env ctx (e ∷ env) = do
      v ← substitute json ctx defer_all e.value
      rest ← inline_env ctx env
      ok (record { name = e.name; value = v; value_from = none } ∷ rest)

    unfoldable pub inline_step_action : Step k → StepAction k → Result ActionError (Step k)
    unfolding default_params bind_params inline_env
    inline_step_action st action = do
      defaults ← default_params st.name action.params []
      let ctx = scoped (bind_params st.params defaults)
      image ← lift (substitute json ctx defer_all action.image)
      script ← lift (substitute json ctx defer_all action.script)
      working_dir ← lift (substitute json ctx defer_all action.working_dir)
      args ← lift (substitute_args json ctx defer_all action.args)
      command ← lift (substitute_args json ctx defer_all action.command)
      env ← lift (inline_env ctx action.env)
      ok (record {
        name = st.name;
        display_name = "";
        ref = none;
        params = [];
        image = image;
        command = command;
        args = args;
        script = script;
        env = env;
        working_dir = working_dir;
        resources = action.resources;
        image_pull_policy = action.image_pull_policy;
        security_context = none;
        env_from = [];
        timeout = "";
        on_error = st.on_error;
        results = action.results;
        volume_mounts = action.volume_mounts ++ st.volume_mounts;
      })

    -- one round of the loop over the steps
    unfoldable pub resolve_step : Map (StepAction k) → Step k → Result ActionError (Step k)
    unfolding inline_step_action
    resolve_step actions st = elim st.ref [
      | none ↦ ok st
      | some name ↦
          if has_inline_body st then err (inline_body st.name) else elim (lookup name actions) [
            | none ↦ err (unknown_action st.name name)
            | some action ↦ inline_step_action st action
          ]
    ]

    unfoldable pub resolve_steps :
        Map (StepAction k) → List (Step k) → Result ActionError (List (Step k))
    unfolding resolve_step
    resolve_steps actions [] = ok []
    resolve_steps actions (st ∷ steps) = do
      s ← resolve_step actions st
      rest ← resolve_steps actions steps
      ok (s ∷ rest)

    unfoldable pub resolve_step_actions :
        Map (StepAction k) → TaskSpec k → Result ActionError (TaskSpec k)
    unfolding resolve_steps
    resolve_step_actions actions spec =
        if not (any (λ s. is_some s.ref) spec.steps)
        then ok spec
        else do steps ← resolve_steps actions spec.steps; ok (record spec { steps = steps })
