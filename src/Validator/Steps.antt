-- ===== src/Validator/Steps.antt =====
-- validator.go, rules 8h to 17 on the steps, volumes and sidecars of a task, and ValidateTaskSpec.
use tkn_act.Base.{
  ℕ, ◌+◌, String, Bool, not, ◌&&◌, ◌||◌, Option, none, some, List, [], ◌∷◌, ◌++◌, if◌then◌else◌,
  ◌==◌, nat_eq, ltb, mem, each, report, map, Map, lookup, is_some, or_else,
}
use tkn_act.Base.Integers.{ℤ}
use tkn_act.Dag.{is_empty}
use tkn_act.Tekton.{
  Kube, ParamSpec, Param, Volume, VolumeMount, Step, Sidecar, StepTemplate, StepAction, TaskSpec,
  PipelineTask,
}
use tkn_act.Validator.Errors.{
  Invalid, duplicate_step, unsupported_on_error, no_volume_source, many_volume_sources,
  host_path_missing, undeclared_volume, empty_mount_path, unnamed_sidecar, sidecar_image_missing,
  duplicate_sidecar, sidecar_is_step, sidecar_volume, resolver_step_ref, ref_and_body,
  unknown_step_action, missing_action_param, no_image, no_steps,
}
use tkn_act.Validator.Names.{Bundle}
use tkn_act.Validator.Timing.{check_timeout}

abbrev pub volume_names : List Volume → List String
volume_names vs = map (λ v. v.name) vs

abbrev one_if : {A : Type 0} → Option A → ℕ
one_if none = 0
one_if (some _) = 1

-- how many sources a volume has
abbrev pub source_count : Volume → ℕ
source_count v = one_if v.empty_dir + one_if v.host_path + one_if v.config_map + one_if v.secret

-- rule 10
unfoldable pub volume_errors : String → List Volume → List Invalid
volume_errors task vs =
    each
      (λ (v : Volume).
        (if nat_eq (source_count v) 0
          then no_volume_source task v.name ∷ []
          else report (ltb 1 (source_count v)) (many_volume_sources task v.name))
        ++ (elim v.host_path [
          | none ↦ []
          | some path ↦ report (path == "") (host_path_missing task v.name)
        ]))
      vs

module _ {k : Kube} where
  -- refs.go
  unfoldable pub duplicate_step_name_errors : String → List String → List (Step k) → List Invalid
  duplicate_step_name_errors task seen [] = []
  duplicate_step_name_errors task seen (st ∷ sts) =
      if st.name == ""
      then duplicate_step_name_errors task seen sts
      else report (mem st.name seen) (duplicate_step task st.name)
        ++ duplicate_step_name_errors task (st.name ∷ seen) sts

  -- rule 9
  unfoldable pub on_error_errors : String → List (Step k) → List Invalid
  on_error_errors task sts =
      each
        (λ (st : Step k).
          report
            (not (st.on_error == "" || st.on_error == "continue" || st.on_error == "stopAndFail"))
            (unsupported_on_error task st.name st.on_error))
        sts

  -- rule 11
  unfoldable pub mount_errors : String → List String → List (Step k) → List Invalid
  mount_errors task volumes sts =
      each
        (λ (st : Step k).
          each
            (λ (vm : VolumeMount).
              report (not (mem vm.name volumes)) (undeclared_volume task st.name vm.name)
              ++ report (vm.mount_path == "") (empty_mount_path task st.name vm.name))
            st.volume_mounts)
        sts

  -- rule 8h, over `resolvedOrder`
  unfoldable pub check_step_names : Map (TaskSpec k) → List Invalid
  unfolding duplicate_step_name_errors
  check_step_names specs =
      each (λ (e : String × TaskSpec k). duplicate_step_name_errors e.0 [] e.1.steps) specs

  unfoldable pub check_on_error : Map (TaskSpec k) → List Invalid
  unfolding on_error_errors
  check_on_error specs = each (λ (e : String × TaskSpec k). on_error_errors e.0 e.1.steps) specs

  -- rules 10 and 11
  unfoldable pub check_volumes : Map (TaskSpec k) → List Invalid
  unfolding volume_errors mount_errors
  check_volumes specs =
      each
        (λ (e : String × TaskSpec k).
          volume_errors e.0 e.1.volumes ++ mount_errors e.0 (volume_names e.1.volumes) e.1.steps)
        specs

  -- rule 12
  unfoldable pub sidecar_errors :
      String → List String → List String → List String → List (Sidecar k) → List Invalid
  sidecar_errors task volumes steps seen [] = []
  sidecar_errors task volumes steps seen (sc ∷ scs) =
      if sc.name == ""
      then unnamed_sidecar task ∷ sidecar_errors task volumes steps seen scs
      else report (sc.image == "") (sidecar_image_missing task sc.name)
        ++ report (mem sc.name seen) (duplicate_sidecar task sc.name)
        ++ report (mem sc.name steps) (sidecar_is_step task sc.name)
        ++ each
            (λ (vm : VolumeMount).
              report (not (mem vm.name volumes)) (sidecar_volume task sc.name vm.name))
            sc.volume_mounts
        ++ sidecar_errors task volumes steps (sc.name ∷ seen) scs

  unfoldable pub check_sidecars : Map (TaskSpec k) → List Invalid
  unfolding sidecar_errors
  check_sidecars specs =
      each
        (λ (e : String × TaskSpec k).
          sidecar_errors e.0 (volume_names e.1.volumes) (map (λ (st : Step k). st.name) e.1.steps)
            [] e.1.sidecars)
        specs

  -- a field of its own besides `ref`
  abbrev has_body : Step k → Bool
  has_body st =
      not (st.image == "")
      || not (is_empty st.command)
      || not (is_empty st.args)
      || not (st.script == "")
      || not (is_empty st.env)
      || not (st.working_dir == "")
      || not (st.image_pull_policy == "")
      || is_some st.resources
      || not (is_empty st.results)

  unfoldable pub action_ref_errors : Map (StepAction k) → String → Step k → String → List Invalid
  action_ref_errors actions task st ref =
      if has_body st then ref_and_body task st.name ∷ [] else (elim (lookup ref actions) [
        | none ↦ unknown_step_action task st.name ref ∷ []
        | some action ↦
            each
              (λ (d : ParamSpec).
                report
                  (not (is_some d.default)
                    && not (mem d.name (map (λ (p : Param). p.name) st.params)))
                  (missing_action_param task st.name d.name))
              action.params
      ])

  -- the loop over the steps, along what the raw YAML says of each `ref` block
  unfoldable pub step_ref_errors :
      Map (StepAction k) → String → List Bool → List (Step k) → List Invalid
  unfolding action_ref_errors
  step_ref_errors actions task raw [] = []
  step_ref_errors actions task [] (st ∷ sts) =
      elim st.ref [ none ↦ [] | some ref ↦ action_ref_errors actions task st ref ]
      ++ step_ref_errors actions task [] sts
  step_ref_errors actions task (by_resolver ∷ raw) (st ∷ sts) =
      elim st.ref [
        | none ↦ []
        | some ref ↦
            if by_resolver
            then resolver_step_ref task st.name ∷ []
            else action_ref_errors actions task st ref
      ]
      ++ step_ref_errors actions task raw sts

  unfoldable pub task_name_for : Bundle k → PipelineTask k → String
  task_name_for b pt = elim pt.task_ref [
    | none ↦ ""
    | some ref ↦
        if ref.resolver == "" && not (ref.name == "") && is_some (lookup ref.name b.tasks)
        then ref.name
        else ""
  ]

  -- rules 13 to 17
  unfoldable pub check_step_refs :
      Bundle k → Map (TaskSpec k) → List (PipelineTask k) → List Invalid
  unfolding step_ref_errors task_name_for
  check_step_refs b specs pts =
      each
        (λ (pt : PipelineTask k). elim (lookup pt.name specs) [
          | none ↦ []
          | some spec ↦
              step_ref_errors b.step_actions pt.name
                (or_else (lookup (task_name_for b pt) b.raw_steps) []) spec.steps
        ])
        pts

  abbrev template_image : Option (StepTemplate k) → String
  template_image none = ""
  template_image (some t) = t.image

  unfoldable pub merge_step_template_for_image : TaskSpec k → TaskSpec k
  merge_step_template_for_image spec =
      if template_image spec.step_template == "" then spec else record spec {
        steps =
            map
              (λ (st : Step k).
                if st.image == ""
                then record st { image = template_image spec.step_template }
                else st)
              spec.steps;
      }

  -- rule 16
  unfoldable pub check_images : Map (TaskSpec k) → List Invalid
  unfolding merge_step_template_for_image
  check_images specs =
      each
        (λ (e : String × TaskSpec k).
          each
            (λ (st : Step k).
              report (not (is_some st.ref) && st.image == "") (no_image e.0 st.name))
            (merge_step_template_for_image e.1).steps)
        specs

  -- ValidateTaskSpec, which the engine applies to what a resolver gives
  unfoldable pub validate_task_spec : (String → Option ℤ) → String → TaskSpec k → List Invalid
  unfolding check_timeout duplicate_step_name_errors on_error_errors volume_errors mount_errors
  validate_task_spec parse_duration task spec =
      report (is_empty spec.steps) (no_steps task)
      ++ check_timeout parse_duration task spec.timeout
      ++ duplicate_step_name_errors task [] spec.steps
      ++ on_error_errors task spec.steps
      ++ volume_errors task spec.volumes
      ++ mount_errors task (volume_names spec.volumes) spec.steps
