-- ===== src/Examples/Containers.antt =====
-- Tasks on the docker backend: a second step that fails, and an escaped dollar.
use tkn_act.Base.{
  option_or, some, String, ◌≡◌, refl, true, false, none, [], ◌∷◌, map, lookup, ok, err, ◌⊎◌, nat_eq,
  if◌then◌else◌,
}
use tkn_act.Base.Text.{size, strip_prefix, has_prefix, strip_suffix, span, starts}
use tkn_act.Base.Integers.{pos}
use tkn_act.Tekton.{Step, TaskSpec}
use tkn_act.Resolver.Scope.{namespace_of, unknown_param}
use tkn_act.Resolver.Lookup.{lookup_param, dispatch, lookup as look_up}
use tkn_act.Resolver.{defer_step, ref_at, replace_from, resolve, scan_refs, substitute}
use tkn_act.Engine.Outcome.{infrafailed}
use tkn_act.Docker.{
  Fault, ends, Host, check_container_support, check_steps, check_sidecar_support,
  check_docker_support,
}
use tkn_act.Docker.Loop.{
  step_env, substitute_step_refs, set_up, execute, add_step_results, run_steps, collect, run_task,
}
use tkn_act.Docker.Ran.{Ended}
use tkn_act.Docker.Ended.{run_task-ends}
use tkn_act.Examples.Pipelines.{kube}
use tkn_act.Examples.References.{json, ctx}
use tkn_act.Examples.Steps.{step}
use tkn_act.Examples.Checks.{one_step, minute}

-- The second step exits with 1.
abbrev docker : Host kube
docker = record {
  remote = false;
  pull_policy_override = "";
  security = λ c. none;
  parse_duration = minute;
  start_pause = ok tt;
  start_sidecars = ok tt;
  make_results_dir = ok tt;
  push_volumes = ok tt;
  pull_task_results = ok tt;
  ensure_image = λ n image policy. ok tt;
  make_step_dir = λ n name. ok tt;
  make_volume_dir = λ n name. ok tt;
  pull_step_results = λ n name. ok tt;
  run_step = λ n st. if nat_eq n 1 then ok (pos 1) else ok (pos 0);
  read_step_result = λ n name result. none;
  read_result = λ result. none;
  pause_alive = λ n. true;
}

abbrev plain : String → String → Step kube
plain name on_error = record step {
  name = name;
  image = "alpine";
  args = [];
  env = [];
  on_error = on_error;
}

abbrev three_steps : String → TaskSpec kube
three_steps on_error = record one_step {
  steps = plain "a" "" ∷ plain "b" on_error ∷ plain "c" "" ∷ [];
}

stopped_at_b : map (λ x. x.name) (run_task json docker (three_steps "")).steps ≡ "a" ∷ "b" ∷ []
unfolding run_task check_docker_support check_steps check_container_support check_sidecar_support
    set_up run_steps substitute_step_refs step_env execute add_step_results collect substitute
    scan_refs ref_at replace_from size
stopped_at_b = refl

went_past_b :
    map (λ x. x.name) (run_task json docker (three_steps "continue")).steps ≡ "a" ∷ "b" ∷ "c" ∷ []
unfolding run_task check_docker_support check_steps check_container_support check_sidecar_support
    set_up run_steps substitute_step_refs step_env execute add_step_results collect substitute
    scan_refs ref_at replace_from size
went_past_b = refl

run_task-ends_example :
    ((f : Fault) × (option_or
          (check_docker_support docker (three_steps ""))
          (set_up docker (three_steps ""))
        ≡ some f)
      × (run_task json docker (three_steps "") ≡ ends infrafailed (some f) []))
    ⊎ Ended json docker (three_steps "") (run_task json docker (three_steps ""))
run_task-ends_example = run_task-ends json docker (three_steps "")

-- What the engine leaves of an escaped reference is a reference to the backend's own pass, which
-- knows no params.
unescaped_by_engine : substitute json ctx defer_step "$$(params.who)" ≡ ok "$(params.who)"
unfolding substitute scan_refs ref_at replace_from resolve namespace_of size strip_prefix has_prefix
    strip_suffix span starts
unescaped_by_engine = refl

refused_by_backend :
    substitute_step_refs json (record (plain "a" "") { script = "$(params.who)" }) []
    ≡ err (unknown_param "who")
unfolding substitute_step_refs step_env substitute scan_refs resolve ref_at replace_from look_up
    dispatch namespace_of lookup_param lookup size strip_prefix has_prefix strip_suffix span starts
refused_by_backend = refl
