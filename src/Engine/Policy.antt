-- ===== src/Engine/Policy.antt =====
-- policy.go: the retry loop around one task. What an attempt does (`runOne` and the contexts that
-- it runs under) is an argument: a function from the attempt's number to what the loop reads.
pub mod Attempts
use tkn_act.Base.{
  ℕ, zero, suc, ◌+◌, String, ◌≡◌, Bool, true, false, ◌&&◌, ◌||◌, not, Option, none, some, List, [],
  ◌∷◌, if◌then◌else◌, ltb, nat_eq, ◌==◌, or_else, Map, lookup,
}
use tkn_act.Base.Integers.{ℤ, pos, positive, pos_part, ltb_ℤ, add_64}
use tkn_act.Tekton.{Kube, TaskSpec, PipelineTask}
use tkn_act.Engine.Outcome.{
  Status, timeout, is_succeeded, is_skipped, is_timeout, TaskOutcome, task_timeout_exceeded, Event,
  task_retry,
}

-- context.Canceled, context.DeadlineExceeded
pub data CtxError : Type 0 where
  canceled deadline_exceeded : CtxError

pub record Attempt : Type 0 where
  pub outcome : TaskOutcome
  -- ctx.Err() != nil and runCtx.Err() once `runOne` has returned
  pub parent_dead : Bool
  pub run_err : Option CtxError

abbrev is_deadline : Option CtxError → Bool
is_deadline none = false
is_deadline (some canceled) = false
is_deadline (some deadline_exceeded) = true

-- 1 + pt.Retries in an int of 64 bits, and at least 1
unfoldable pub max_attempts : ℤ → ℕ
unfolding add_64
max_attempts retries =
    let max = add_64 (pos 1) retries in if ltb_ℤ max (pos 1) then 1 else pos_part max

-- runCtx passed its own deadline, and not its parent's
unfoldable pub timed_out : ℤ → Attempt → Bool
timed_out task_timeout a = positive task_timeout && not a.parent_dead && is_deadline a.run_err

abbrev pub expired : ℤ → TaskOutcome → TaskOutcome
expired task_timeout oc = record oc {
  status = timeout;
  message = task_timeout_exceeded task_timeout;
}

-- `if oc.Attempt == 0 { oc.Attempt = maxAttempts }`
unfoldable pub number_attempt : ℕ → TaskOutcome → TaskOutcome
number_attempt max oc = record oc { attempt = if nat_eq oc.attempt 0 then max else oc.attempt }

module _ (task : String) (task_timeout : ℤ) (run : ℕ → Attempt) where
  -- the `for` loop: `left` attempts remain, and the next one has the number `n`
  unfoldable pub attempt_loop : (max left n : ℕ) → TaskOutcome → TaskOutcome × List Event
  attempt_loop max zero n oc = (oc, [])
  attempt_loop max (suc left) n _ =
      let a = run n in
      let oc = a.outcome in
      let rest = attempt_loop max left (n + 1) oc in
      if timed_out task_timeout a
      then (expired task_timeout oc, [])
      else if a.parent_dead
      then (oc, [])
      else if is_timeout oc.status || is_succeeded oc.status || is_skipped oc.status
      then (record oc { attempt = n }, [])
      else if ltb n max
      then (let (final, events) = rest in (final, task_retry task oc.status oc.message n ∷ events))
      else (oc, [])

  unfoldable pub run_one_with_policy : ℤ → TaskOutcome × List Event
  unfolding attempt_loop number_attempt
  run_one_with_policy retries =
      let max = max_attempts retries in
      let (oc, events) = attempt_loop max max 1 (run 1).outcome in (number_attempt max oc, events)

-- taskTimeoutFor; none where a duration cannot be parsed
module _ {k : Kube} (parse_duration : String → Option ℤ) (tasks : Map (TaskSpec k)) where
  unfoldable pub spec_timeout : TaskSpec k → Option ℤ
  spec_timeout spec = if spec.timeout == "" then some (pos 0) else parse_duration spec.timeout

  unfoldable pub task_timeout_for : PipelineTask k → Option ℤ
  unfolding spec_timeout
  task_timeout_for pt =
      if not (pt.timeout == "") then parse_duration pt.timeout else elim pt.task_spec [
        | some spec ↦ spec_timeout spec
        | none ↦ elim pt.task_ref [
          | none ↦ some (pos 0)
          | some ref ↦ elim (lookup ref.name tasks) [
            | none ↦ some (pos 0)
            | some spec ↦ spec_timeout spec
          ]
        ]
      ]

  -- the whole of runOneWithPolicy: an error of the timeout is dropped
  unfoldable pub run_with_policy : PipelineTask k → (ℕ → Attempt) → TaskOutcome × List Event
  unfolding task_timeout_for run_one_with_policy
  run_with_policy pt run =
      run_one_with_policy pt.name (or_else (task_timeout_for pt) (pos 0)) run pt.retries
