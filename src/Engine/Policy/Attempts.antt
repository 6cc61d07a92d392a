-- ===== src/Engine/Policy/Attempts.antt =====
-- How many attempts a task gets, which of them decides, and what the events tell.
use tkn_act.Base.{
  ℕ, zero, suc, ◌+◌, ◌-◌, ◌≤◌, ◌<◌, String, ◌≡◌, ap, Bool, true, false, ◌||◌, arith, List, [], ◌∷◌,
  if◌then◌else◌, ltb, Bool-cases, ◌⊎◌, inl, inr,
}
use tkn_act.Base.Integers.{ℤ}
use tkn_act.Engine.Outcome.{is_succeeded, is_skipped, is_timeout, TaskOutcome, Event, task_retry}
use tkn_act.Engine.Policy.{
  Attempt, max_attempts, timed_out, expired, attempt_loop, number_attempt, run_one_with_policy,
}

max_attempts-pos : (retries : ℤ) → 0 < max_attempts retries
unfolding max_attempts
max_attempts-pos retries = ground arith

module _ (task : String) (task_timeout : ℤ) (run : ℕ → Attempt) where
  -- An attempt after which the task is not tried again, however many attempts are left.
  abbrev pub decides : Attempt → Bool
  decides a =
      timed_out task_timeout a
      || a.parent_dead
      || is_timeout a.outcome.status
      || is_succeeded a.outcome.status
      || is_skipped a.outcome.status

  -- The retry events of the attempts numbered from `n`, `count` of them.
  abbrev pub retries_from : ℕ → ℕ → List Event
  retries_from n zero = []
  retries_from n (suc count) =
      task_retry task (run n).outcome.status (run n).outcome.message n ∷ retries_from (n + 1) count

  -- What is reported of the attempt that decides.
  abbrev pub reported : ℕ → TaskOutcome
  reported k =
      let a = run k in
      if timed_out task_timeout a
      then expired task_timeout a.outcome
      else if a.parent_dead
      then a.outcome
      else if is_timeout a.outcome.status
          || is_succeeded a.outcome.status
          || is_skipped a.outcome.status
      then record a.outcome { attempt = k }
      else a.outcome

  pub record LastAttempt (max n k : ℕ) (r : TaskOutcome × List Event) : Type 0 where
    pub from : n ≤ k
    pub upto : k ≤ max
    pub undecided : (i : ℕ) → n ≤ i → i < k → decides (run i) ≡ false
    pub decided : (decides (run k) ≡ true) ⊎ (k ≡ max)
    pub outcome : r.0 ≡ reported k
    pub events : r.1 ≡ retries_from n (k - n)

  attempt_loop-last :
      (max left n : ℕ) (oc : TaskOutcome)
      → n + left ≡ max + 1
      → 0 < left
      → (k : ℕ) × LastAttempt max n k (attempt_loop task task_timeout run max left n oc)
  unfolding attempt_loop
  attempt_loop-last max zero n oc e h = elim h [ ]
  attempt_loop-last max (suc left) n oc e h = elim (Bool-cases (decides (run n))) [
    | inl d ↦ (
      n,
      record {
        from = omega arith;
        upto = omega arith;
        undecided = λ i a b. absurd (omega arith);
        decided = inl d;
        outcome = ground arith;
        events = let z : n - n ≡ zero = omega arith in ground (arith, ap (retries_from n) z);
      },
    )
    | inr d ↦ elim (Bool-cases (ltb n max)) [
      | inl more ↦
          let (k, last) =
            attempt_loop-last max left (n + 1) (run n).outcome (omega arith) (ground arith) in
          (
            k,
            record {
              from = omega (arith, last.from);
              upto = last.upto;
              undecided = λ i a b. ground (arith, last.undecided i);
              decided = last.decided;
              outcome = ground (arith, last.outcome);
              events =
                  let z : k - n ≡ suc (k - (n + 1)) = omega (arith, last.from) in
                  ground (arith, last.events, ap (retries_from n) z);
            },
          )
      | inr same ↦ (
        n,
        record {
          from = omega arith;
          upto = omega arith;
          undecided = λ i a b. absurd (omega arith);
          decided = inr (ground arith);
          outcome = ground arith;
          events = let z : n - n ≡ zero = omega arith in ground (arith, ap (retries_from n) z);
        },
      )
    ]
  ]

  -- The task gets `max_attempts` attempts at most. Every attempt but the last one failed in a way
  -- that may be tried again and told its failure in a retry event, in order; the last one decides,
  -- or no attempt is left, and its outcome is the one reported.
  pub run_one_with_policy-last :
      (retries : ℤ)
      → (k : ℕ) × (1 ≤ k)
        × (k ≤ max_attempts retries)
        × ((i : ℕ) → 1 ≤ i → i < k → decides (run i) ≡ false)
        × ((decides (run k) ≡ true) ⊎ (k ≡ max_attempts retries))
        × ((run_one_with_policy task task_timeout run retries).0
            ≡ number_attempt (max_attempts retries) (reported k))
        × ((run_one_with_policy task task_timeout run retries).1 ≡ retries_from 1 (k - 1))
  unfolding run_one_with_policy
  run_one_with_policy-last retries =
      let max = max_attempts retries in
      let (k, last) =
        attempt_loop-last max max 1 (run 1).outcome (omega arith) (max_attempts-pos retries) in
      (
        k,
        last.from,
        last.upto,
        last.undecided,
        last.decided,
        ap (number_attempt max) last.outcome,
        last.events,
      )
