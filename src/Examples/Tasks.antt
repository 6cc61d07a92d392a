-- ===== src/Examples/Tasks.antt =====
-- A task's attempts, a pipeline's budgets, and the view that the finally tasks have of the others.
use tkn_act.Base.{
  ◌*◌, ℕ, zero, suc, ◌-◌, ◌≤◌, ◌<◌, String, ◌≡◌, refl, true, false, not, ◌&&◌, arith, ◌==◌, Option,
  none, some, [], all, any, ◌⊎◌, inr, if◌then◌else◌,
}
use tkn_act.Base.Integers.{ℤ, pos, positive, add_64, ◌+ℤ◌, ◌≤ℤ◌}
use tkn_act.Tekton.{Timeouts}
use tkn_act.Dag.{Graph}
use tkn_act.Engine.Outcome.{
  Status, succeeded, failed, timeout, TaskOutcome, ran, text, upstream_failure, parent_task_skipped,
}
use tkn_act.Engine.Policy.{
  Attempt, deadline_exceeded, max_attempts, timed_out, number_attempt, attempt_loop,
  run_one_with_policy,
}
use tkn_act.Engine.Policy.Attempts.{decides, retries_from, reported, run_one_with_policy-last}
use tkn_act.Engine.Budgets.{
  PipelineTimeouts, tasks_budget, finally_budget, parse_field, parse_pipeline_timeouts,
  parse_timeout, checked_field, check_timeouts,
}
use tkn_act.Engine.Budgets.Fit.{budgets_fit}
use tkn_act.Engine.Finally.{
  compute_finally_status, exec_none, exec_failed, exec_succeeded, exec_completed, is_bad, is_good,
}
use tkn_act.Engine.Finally.Counting.{is_done, ended}
use tkn_act.Engine.Finally.Grouping.{compute_finally_status-aggregate}
use tkn_act.Engine.Blocking.{upstream, upstream_blocks_dispatch, key_for}
use tkn_act.Engine.Blocking.Groups.{went_well, in_the_way, broke, upstream_blocks_dispatch_iff}
use tkn_act.Examples.Pipelines.{two_tasks, plan, all_over}

-- The first attempt fails and the second succeeds.
abbrev outcome_of : Status → TaskOutcome
outcome_of s = record {
  status = s;
  message = text "";
  results = none;
  attempt = 0;
  matrix = none;
  skip = ran;
}

abbrev second_time : ℕ → Attempt
second_time (suc zero) = record { outcome = outcome_of failed; parent_dead = false; run_err = none }
second_time _ = record { outcome = outcome_of succeeded; parent_dead = false; run_err = none }

abbrev too_slow : ℕ → Attempt
too_slow _ = record {
  outcome = outcome_of failed;
  parent_dead = false;
  run_err = some deadline_exceeded;
}

run_one_with_policy-last_example :
    (k : ℕ) × (1 ≤ k)
    × (k ≤ max_attempts (pos 2))
    × ((i : ℕ) → 1 ≤ i → i < k → decides "t" (pos 0) second_time (second_time i) ≡ false)
    × ((decides "t" (pos 0) second_time (second_time k) ≡ true) ⊎ (k ≡ max_attempts (pos 2)))
    × ((run_one_with_policy "t" (pos 0) second_time (pos 2)).0
        ≡ number_attempt (max_attempts (pos 2)) (reported "t" (pos 0) second_time k))
    × ((run_one_with_policy "t" (pos 0) second_time (pos 2)).1
        ≡ retries_from "t" (pos 0) second_time 1 (k - 1))
run_one_with_policy-last_example = run_one_with_policy-last "t" (pos 0) second_time (pos 2)

-- A first attempt that outruns the task's timeout is the only one; its outcome carries the number of
-- the last attempt allowed.
timed_out-number :
    ((run_one_with_policy "t" (pos 5) too_slow (pos 2)).0.status ≡ timeout)
    × ((run_one_with_policy "t" (pos 5) too_slow (pos 2)).0.attempt ≡ 3)
    × ((run_one_with_policy "t" (pos 5) too_slow (pos 2)).1 ≡ [])
unfolding run_one_with_policy attempt_loop timed_out max_attempts number_attempt
timed_out-number = (refl, refl, refl)

-- It knows one text.
abbrev parse_duration : String → Option ℤ
parse_duration s = if s == "1m" then some (pos 60) else none

abbrev one_minute : Timeouts
one_minute = record { pipeline = "1m"; tasks = ""; finally = "" }

abbrev split : PipelineTimeouts
split = record { pipeline = pos 60; tasks = pos 0; finally = pos 20 }

-- A minute for the run and twenty seconds of it for the finally tasks.
abbrev read_split : String → Option ℤ
read_split s = if s == "1m" then some (pos 60) else if s == "20s" then some (pos 20) else none

abbrev split_timeouts : Timeouts
split_timeouts = record { pipeline = "1m"; tasks = ""; finally = "20s" }

budgets_fit_example :
    (positive (tasks_budget split) ≡ true)
    × (positive (finally_budget split) ≡ true)
    × (tasks_budget split +ℤ finally_budget split ≤ℤ split.pipeline)
unfolding check_timeouts checked_field parse_timeout parse_pipeline_timeouts parse_field
budgets_fit_example =
    budgets_fit read_split split_timeouts split refl refl (omega arith) refl (inr refl)
      (λ h. absurd (cc)) (λ h. refl)

-- In nanoseconds 2000000h for each phase and 2500000h for the run: the sum of the phases wraps
-- around to less than the budget of the run, and is accepted.
abbrev hours : String → Option ℤ
hours s =
    if s == "2500000h"
    then some (pos (2500000 * 3600000000000))
    else if s == "2000000h"
    then some (pos (2000000 * 3600000000000))
    else none

wrapped_sum :
    check_timeouts hours
      (record { pipeline = "2500000h"; tasks = "2000000h"; finally = "2000000h" })
    ≡ []
unfolding check_timeouts checked_field parse_timeout add_64 ◌+ℤ◌
wrapped_sum = refl

abbrev greedy : PipelineTimeouts
greedy = record { pipeline = pos 60; tasks = pos 0; finally = pos 60 }

compute_finally_status-aggregate_example :
    (compute_finally_status two_tasks.tasks all_over.state.outcomes).0 ≡ (
      if not (all (is_done all_over.state.outcomes) two_tasks.tasks)
      then exec_none
      else if any (ended all_over.state.outcomes is_bad) two_tasks.tasks
      then exec_failed
      else if all (ended all_over.state.outcomes is_good) two_tasks.tasks
      then exec_succeeded
      else exec_completed)
compute_finally_status-aggregate_example =
    compute_finally_status-aggregate two_tasks.tasks all_over.state.outcomes

abbrev pair_graph : Graph
pair_graph = plan.graph

upstream_blocks_dispatch_iff_example :
    upstream_blocks_dispatch plan.main all_over.state.outcomes pair_graph "test" ≡ (
      if any
        (λ a.
          in_the_way all_over.state.outcomes a
          && not (
              any
                (λ b.
                  key_for plan.main b == key_for plan.main a && went_well all_over.state.outcomes b)
                (upstream pair_graph "test")))
        (upstream pair_graph "test")
      then (if any
            (λ a.
              broke all_over.state.outcomes a
              && not (
                  any
                    (λ b.
                      key_for plan.main b == key_for plan.main a
                      && went_well all_over.state.outcomes b)
                    (upstream pair_graph "test")))
            (upstream pair_graph "test")
          then some upstream_failure
          else some parent_task_skipped)
      else none)
upstream_blocks_dispatch_iff_example =
    upstream_blocks_dispatch_iff plan.main all_over.state.outcomes pair_graph "test"
