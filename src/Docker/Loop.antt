-- ===== src/Docker/Loop.antt =====
-- RunTask of docker.go: what is started before the steps, the loop over them, and the results.
use Prim.Native.String.{String}
use tkn_act.Base.{
  ℕ, suc, Bool, not, ◌&&◌, ◌==◌, Option, none, some, List, [], ◌∷◌, ◌++◌, if◌then◌else◌, Map,
  insert, Result, ok, err, ◌>>=◌,
}
use tkn_act.Base.Integers.{ℤ, pos}
use tkn_act.Dag.{is_empty}
use tkn_act.Tekton.{Kube, EnvVar, ResultSpec, Step, TaskSpec}
use tkn_act.Resolver.Scope.{Json, Context, LookupError}
use tkn_act.Resolver.{strict, substitute}
use tkn_act.Engine.Substitution.{sub_args}
use tkn_act.Engine.Outcome.{succeeded, failed, infrafailed}
use tkn_act.Docker.{
  Fault, StepResult, TaskEnd, trim_newlines, is_zero_code, Host, step_scope, step_result, or_fault,
  ends, ran_or_fault, check_docker_support, no_pause, no_sidecar, no_results_dir, not_pushed,
  no_results, bad_reference, no_image, no_step_dir, no_step_volume_dir, no_step_results,
  pause_exited, step_unset, step_succeeded, step_failed,
}

module _ {k : Kube} where
  module _ (h : Host k) where
    abbrev pub if_remote : Result String Unit → Result String Unit
    if_remote r = if h.remote then r else ok tt

    -- One step up to its exit code; else the fault, with what is recorded of the step.
    unfoldable pub execute : ℕ → Step k → Result (Fault × List StepResult) ℤ
    execute n st = do
      let policy =
          if h.pull_policy_override == "" then st.image_pull_policy else h.pull_policy_override
      pulled ←
          or_fault (no_image st.name) (step_result st.name (pos 0) step_unset ∷ [])
            (h.ensure_image n st.image policy)
      made ← or_fault (no_step_dir st.name) [] (h.make_step_dir n st.name)
      made_there ←
          or_fault (no_step_volume_dir st.name) [] (if_remote (h.make_volume_dir n st.name))
      exit_code ← ran_or_fault st.name (h.run_step n st)
      back ←
          or_fault (no_step_results st.name) (step_result st.name exit_code step_failed ∷ [])
            (if_remote (h.pull_step_results n st.name))
      ok exit_code

    unfoldable pub read_step_results : ℕ → String → List ResultSpec → Map String → Map String
    unfolding trim_newlines
    read_step_results n name [] rs = rs
    read_step_results n name (d ∷ decls) rs =
        read_step_results n name decls (elim (h.read_step_result n name d.name) [
          | none ↦ rs
          | some text ↦ insert d.name (trim_newlines text) rs
        ])

    unfoldable pub add_step_results : ℕ → Step k → Map (Map String) → Map (Map String)
    unfolding read_step_results
    add_step_results n st step_results =
        if is_empty st.results
        then step_results
        else insert st.name (read_step_results n st.name st.results []) step_results

    unfoldable pub read_results : List ResultSpec → Map String → Map String
    unfolding trim_newlines
    read_results [] rs = rs
    read_results (d ∷ decls) rs = read_results decls (elim (h.read_result d.name) [
      | none ↦ rs
      | some text ↦ insert d.name (trim_newlines text) rs
    ])

    -- the results of a task whose steps went through
    unfoldable pub collect : TaskSpec k → TaskEnd → TaskEnd
    unfolding read_results
    collect spec r = elim r.status [
      | succeeded ↦ elim (if_remote h.pull_task_results) [
        | err message ↦ record r { status = infrafailed; err = some (no_results message) }
        | ok _ ↦ record r { results = read_results spec.results [] }
      ]
      | _ ↦ r
    ]

    -- what is started before the steps
    unfoldable pub set_up : TaskSpec k → Option Fault
    set_up spec = elim (if is_empty spec.sidecars then ok tt else h.start_pause) [
      | err message ↦ some (no_pause message)
      | ok _ ↦ elim (if is_empty spec.sidecars then ok tt else h.start_sidecars) [
        | err message ↦ some (no_sidecar message)
        | ok _ ↦ elim (if_remote h.make_results_dir) [
          | err message ↦ some (no_results_dir message)
          | ok _ ↦ elim (if_remote h.push_volumes) [
            | err message ↦ some (not_pushed message)
            | ok _ ↦ none
          ]
        ]
      ]
    ]

  module _ (json : Json) where
    unfoldable pub step_env : Context → List (EnvVar k) → Result LookupError (List (EnvVar k))
    step_env ctx [] = ok []
    step_env ctx (e ∷ es) = do
      v ← substitute json ctx strict e.value
      rest ← step_env ctx es
      ok (record e { value = v } ∷ rest)

    unfoldable pub substitute_step_refs : Step k → Map (Map String) → Result LookupError (Step k)
    unfolding step_env
    substitute_step_refs st step_results = do
      let ctx = step_scope step_results st.name
      image ← substitute json ctx strict st.image
      script ← substitute json ctx strict st.script
      dir ← substitute json ctx strict st.working_dir
      command ← sub_args json ctx strict st.command
      args ← sub_args json ctx strict st.args
      env ← step_env ctx st.env
      ok (record st {
        image = image;
        script = script;
        working_dir = dir;
        command = command;
        args = args;
        env = env;
      })

    module _ (h : Host k) where
      -- the loop over the steps; `netns` tells that the task has sidecars, and with them a pause container
      unfoldable pub run_steps :
          Bool → ℕ → List (Step k) → Map (Map String) → List StepResult → TaskEnd
      unfolding substitute_step_refs execute add_step_results
      run_steps netns n [] step_results done = ends succeeded none done
      run_steps netns n (raw ∷ steps) step_results done =
          elim (substitute_step_refs raw step_results) [
            | err e ↦ ends infrafailed (some (bad_reference raw.name e)) done
            | ok st ↦ elim (execute h n st) [
              | err f ↦ ends infrafailed (some f.0) (done ++ f.1)
              | ok exit_code ↦
                  let known = add_step_results h n st step_results in
                  let good = done ++ step_result st.name exit_code step_succeeded ∷ [] in
                  let bad = done ++ step_result st.name exit_code step_failed ∷ [] in
                  let on = run_steps netns (suc n) steps known good in
                  let on_anyway = run_steps netns (suc n) steps known bad in
                  if is_zero_code exit_code
                  then (if netns && not (h.pause_alive n)
                      then ends infrafailed (some pause_exited) good
                      else on)
                  else if st.on_error == "continue"
                  then on_anyway
                  else ends failed none bad
            ]
          ]

      unfoldable pub run_task : TaskSpec k → TaskEnd
      unfolding check_docker_support set_up run_steps collect
      run_task spec = elim (check_docker_support h spec) [
        | some f ↦ ends infrafailed (some f) []
        | none ↦ elim (set_up h spec) [
          | some f ↦ ends infrafailed (some f) []
          | none ↦ collect h spec (run_steps (not (is_empty spec.sidecars)) 0 spec.steps [] [])
        ]
      ]
