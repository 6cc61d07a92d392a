-- ===== src/Docker.antt =====
-- internal/backend/docker/docker.go: what RunTask needs for the steps of a task, and the checks of
-- security.go before them. The docker engine, the file system and the check of a security context are
-- arguments; how they answer may depend on the position of the step.
pub mod Walk
pub mod Loop
pub mod Ran
pub mod Ended
use Prim.Native.Char.{code}
use Prim.Native.String.{String}
use tkn_act.Base.{
  ℕ, suc, ◌+◌, ◌≡◌, Bool, true, false, not, ◌&&◌, ◌||◌, ◌==◌, nat_eq, Option, none, some, List, [],
  ◌∷◌, ◌++◌, if◌then◌else◌, is_some, any, Map, insert, Result, ok, err, ◌>>=◌,
}
use tkn_act.Base.Integers.{ℤ, pos, negsuc}
use tkn_act.Dag.{is_empty}
use tkn_act.Tekton.{Kube, EnvVar, ResultSpec, Step, Sidecar, TaskSpec}
use tkn_act.Resolver.Scope.{Json, Context, LookupError}
use tkn_act.Resolver.{strict, substitute}
use tkn_act.Engine.Substitution.{sub_args}
use tkn_act.Engine.Outcome.{Status, succeeded, failed, infrafailed}

pub data Fault : Type 0 where
  env_from_unsupported : String → Fault
  value_from_unsupported : String → String → Fault
  security_unsupported : String → String → Fault
  bad_step_timeout : String → Fault
  no_pause no_sidecar no_results_dir not_pushed no_results : String → Fault
  bad_reference : String → LookupError → Fault
  no_image no_step_dir no_step_volume_dir not_run no_step_results : String → String → Fault
  pause_exited : Fault

pub data StepStatus : Type 0 where
  step_unset step_succeeded step_failed : StepStatus

pub record StepResult : Type 0 where
  pub name : String
  pub exit_code : ℤ
  pub status : StepStatus

-- `err` is what ended the task; a step that fails ends it without one.
pub record TaskEnd : Type 0 where
  pub status : Status
  pub err : Option Fault
  pub results : Map String
  pub steps : List StepResult

-- strings.TrimRight of "\n"
unfoldable pub trim_newlines : String → String
trim_newlines String.[] = String.[]
trim_newlines (String.◌∷◌ c s) =
    let rest = trim_newlines s in if nat_eq (code c) 10 && rest == "" then "" else String.◌∷◌ c rest

abbrev pub is_zero_code : ℤ → Bool
is_zero_code (pos n) = nat_eq n 0
is_zero_code (negsuc n) = false

-- How docker and the files answer; `ℕ` is the position of the step.
pub record Host (k : Kube) : Type 0 where
  pub remote : Bool
  pub pull_policy_override : String
  pub security : k.SecurityContext → Option String
  pub parse_duration : String → Option ℤ
  pub start_pause : Result String Unit
  pub start_sidecars : Result String Unit
  pub make_results_dir : Result String Unit
  pub push_volumes : Result String Unit
  pub pull_task_results : Result String Unit
  pub ensure_image : ℕ → String → String → Result String Unit
  pub make_step_dir : ℕ → String → Result String Unit
  pub make_volume_dir : ℕ → String → Result String Unit
  pub pull_step_results : ℕ → String → Result String Unit
  pub run_step : ℕ → Step k → Result (ℤ × String) ℤ
  pub read_step_result : ℕ → String → String → Option String
  pub read_result : String → Option String
  pub pause_alive : ℕ → Bool

abbrev pub step_scope : Map (Map String) → String → Context
step_scope step_results name = record {
  params = [];
  array_params = [];
  object_params = [];
  results = [];
  context_vars = [];
  step_results = some step_results;
  current_step = name;
  bound_workspaces = none;
  tasks_status = "";
  task_statuses = none;
  workspace_paths = [];
}

abbrev pub step_result : String → ℤ → StepStatus → StepResult
step_result name exit_code status = record { name = name; exit_code = exit_code; status = status }

abbrev pub or_fault :
    {A : Type 0}
    → (String → Fault)
    → List StepResult
    → Result String A
    → Result (Fault × List StepResult) A
or_fault f recorded (ok a) = ok a
or_fault f recorded (err message) = err (f message, recorded)

abbrev pub ends : Status → Option Fault → List StepResult → TaskEnd
ends status why steps = record { status = status; err = why; results = []; steps = steps }

abbrev pub ran_or_fault : String → Result (ℤ × String) ℤ → Result (Fault × List StepResult) ℤ
ran_or_fault name (ok c) = ok c
ran_or_fault name (err (c, message)) =
    err (not_run name message, step_result name c step_failed ∷ [])

module _ {k : Kube} where
  module _ (h : Host k) where
    unfoldable pub check_container_support :
        String → List (EnvVar k) → Bool → Option k.SecurityContext → Option Fault
    check_container_support owner [] env_from sc =
        if env_from then some (env_from_unsupported owner) else elim sc [
          | none ↦ none
          | some c ↦ elim (h.security c) [
            | none ↦ none
            | some why ↦ some (security_unsupported owner why)
          ]
        ]
    check_container_support owner (e ∷ es) env_from sc =
        let rest = check_container_support owner es env_from sc in
        if env_from
        then some (env_from_unsupported owner)
        else if is_some e.value_from
        then some (value_from_unsupported owner e.name)
        else rest

    unfoldable pub check_steps : List (Step k) → Option Fault
    unfolding check_container_support
    check_steps [] = none
    check_steps (st ∷ steps) =
        let rest = check_steps steps in
        elim (check_container_support st.name st.env (not (is_empty st.env_from))
          st.security_context) [
            | some f ↦ some f
            | none ↦ if st.timeout == "" then rest else elim (h.parse_duration st.timeout) [
              | none ↦ some (bad_step_timeout st.name)
              | some (pos n) ↦ rest
              | some (negsuc n) ↦ some (bad_step_timeout st.name)
            ]
          ]

    unfoldable pub check_sidecar_support : List (Sidecar k) → Option Fault
    unfolding check_container_support
    check_sidecar_support [] = none
    check_sidecar_support (sc ∷ sidecars) =
        let rest = check_sidecar_support sidecars in
        elim (check_container_support sc.name sc.env (not (is_empty sc.env_from))
          sc.security_context) [ some f ↦ some f | none ↦ rest ]

    -- checkDockerSupport
    unfoldable pub check_docker_support : TaskSpec k → Option Fault
    unfolding check_steps check_sidecar_support
    check_docker_support spec = elim (check_steps spec.steps) [
      | some f ↦ some f
      | none ↦ check_sidecar_support spec.sidecars
    ]
    -- where the engine runs elsewhere
