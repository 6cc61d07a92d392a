-- ===== src/Engine/Budgets/Fit.antt =====
-- What the budgets of a validated pipeline come to.
use Prim.Native.Nat.{◌^◌}
use tkn_act.Base.{
  String, ◌≡◌, subst, ◌-◌, true, false, arith, ◌==◌, Option, some, [], if◌then◌else◌, ok, is_ok,
  ◌⊎◌, inl, inr, Bool-cases, Option-cases,
}
use tkn_act.Base.Integers.{ℤ, pos, ◌-ℤ◌, ◌+ℤ◌, add_64, ◌≤ℤ◌, positive, ltb_ℤ}
use tkn_act.Tekton.{Timeouts}
use tkn_act.Engine.Budgets.{
  PipelineTimeouts, TimeoutField, pipeline_field, tasks_field, finally_field, parse_field,
  parse_pipeline_timeouts, tasks_budget, finally_budget, with_maybe_budget, parse_timeout,
  checked_field, check_timeouts,
}

-- What the validator leaves of three durations: the sum of the phases is that of int64.
pub record IsAdmitted (p : PipelineTimeouts) : Type 0 where
  pub pipeline_nonneg : pos 0 ≤ℤ p.pipeline
  pub tasks_nonneg : pos 0 ≤ℤ p.tasks
  pub finally_nonneg : pos 0 ≤ℤ p.finally
  pub fits :
      positive p.pipeline ≡ true
      → positive p.tasks ≡ true
      → positive p.finally ≡ true
      → add_64 p.tasks p.finally ≤ℤ p.pipeline

-- A field that passes the validator parses in the engine too, to a duration that is not negative.
parse_field-checked :
    (parse_duration : String → Option ℤ) (field : TimeoutField) (s : String)
    → is_ok (checked_field parse_duration field s) ≡ true
    → (d : ℤ) × (checked_field parse_duration field s ≡ ok d)
      × (parse_field parse_duration field s ≡ ok d)
      × (pos 0 ≤ℤ d)
unfolding parse_field checked_field parse_timeout
parse_field-checked parse_duration field s h = elim (Bool-cases (s == "")) [
  | inl e ↦ (pos 0, ground arith, ground arith, omega arith)
  | inr n ↦ elim (Option-cases (parse_duration s)) [
    | inl e ↦ absurd (ground arith)
    | inr (d, e) ↦ (d, ground arith, ground arith, ground arith)
  ]
]

check_timeouts-ok :
    (parse_duration : String → Option ℤ) (t : Timeouts)
    → check_timeouts parse_duration t ≡ []
    → (is_ok (checked_field parse_duration pipeline_field t.pipeline) ≡ true)
      × (is_ok (checked_field parse_duration tasks_field t.tasks) ≡ true)
      × (is_ok (checked_field parse_duration finally_field t.finally) ≡ true)
unfolding check_timeouts
check_timeouts-ok parse_duration t h = ground arith

-- Timeouts that the validator accepts parse in the engine, to durations that are not negative, and
-- where all three are set the sum of the phases in int64 is at most the pipeline's.
pub parse-IsAdmitted :
    (parse_duration : String → Option ℤ) (t : Timeouts)
    → check_timeouts parse_duration t ≡ []
    → (p : PipelineTimeouts) × (parse_pipeline_timeouts parse_duration (some t) ≡ ok p)
      × IsAdmitted p
unfolding parse_pipeline_timeouts
parse-IsAdmitted parse_duration t h =
    let (pipeline_ok, tasks_ok, finally_ok) = check_timeouts-ok parse_duration t h in
    let (p, cp, ep, np) =
      parse_field-checked parse_duration pipeline_field t.pipeline pipeline_ok in
    let (ts, ct, et, nt) = parse_field-checked parse_duration tasks_field t.tasks tasks_ok in
    let (f, cf, ef, nf) = parse_field-checked parse_duration finally_field t.finally finally_ok in
    (
      record { pipeline = p; tasks = ts; finally = f },
      rw (ep, et, ef),
      record {
        pipeline_nonneg = np;
        tasks_nonneg = nt;
        finally_nonneg = nf;
        fits = λ a b c. unfold check_timeouts in ground (arith, cp, ct, cf, h);
      },
    )

-- Without a wrap-around the budgets of both phases fit into the pipeline's.
admitted_fit :
    (p : PipelineTimeouts)
    → IsAdmitted p
    → p.tasks +ℤ p.finally ≤ℤ pos (2 ^ 63 - 1)
    → positive p.pipeline ≡ true
    → (positive p.tasks ≡ true) ⊎ (positive p.finally ≡ true)
    → (positive p.finally ≡ false → ltb_ℤ p.tasks p.pipeline ≡ true)
    → (positive p.tasks ≡ false → ltb_ℤ p.finally p.pipeline ≡ true)
    → (positive (tasks_budget p) ≡ true)
      × (positive (finally_budget p) ≡ true)
      × (tasks_budget p +ℤ finally_budget p ≤ℤ p.pipeline)
unfolding tasks_budget finally_budget ◌+ℤ◌ ◌-ℤ◌ add_64
admitted_fit p adm small pos_p some_phase tasks_below finally_below =
    ground (arith, adm.fits pos_p, adm.tasks_nonneg, adm.finally_nonneg)

-- Where the validator accepts the timeouts and they parse to `p`, a pipeline's budget is set with
-- that of a phase, one phase budget that is set alone is below the pipeline's, and the budgets of
-- the two phases add up to less than 2 ^ 63 nanoseconds, so that the sum in the validator does not
-- wrap around: then both phases have a budget, and the two together fit into the pipeline's.
pub budgets_fit :
    (parse_duration : String → Option ℤ) (t : Timeouts) (p : PipelineTimeouts)
    → check_timeouts parse_duration t ≡ []
    → parse_pipeline_timeouts parse_duration (some t) ≡ ok p
    → p.tasks +ℤ p.finally ≤ℤ pos (2 ^ 63 - 1)
    → positive p.pipeline ≡ true
    → (positive p.tasks ≡ true) ⊎ (positive p.finally ≡ true)
    → (positive p.finally ≡ false → ltb_ℤ p.tasks p.pipeline ≡ true)
    → (positive p.tasks ≡ false → ltb_ℤ p.finally p.pipeline ≡ true)
    → (positive (tasks_budget p) ≡ true)
      × (positive (finally_budget p) ≡ true)
      × (tasks_budget p +ℤ finally_budget p ≤ℤ p.pipeline)
budgets_fit parse_duration t p accepted parsed small pos_p some_phase tasks_below finally_below =
    let (q, q_parsed, adm) = parse-IsAdmitted parse_duration t accepted in
    let same : q ≡ p = cc in
    admitted_fit p (subst IsAdmitted same adm) small pos_p some_phase tasks_below finally_below

-- A phase whose counterpart takes the whole pipeline budget or more is left without one of its own.
pub tasks_budget-exhausted :
    (p : PipelineTimeouts)
    → positive p.tasks ≡ false
    → positive p.pipeline ≡ true
    → p.pipeline ≤ℤ p.finally
    → (parent : Option ℤ) (now : ℤ) → with_maybe_budget parent now (tasks_budget p) ≡ parent
unfolding tasks_budget with_maybe_budget ◌-ℤ◌
tasks_budget-exhausted p h1 h2 h3 parent now = ground arith

-- A budget never moves a deadline past the parent's.
pub with_maybe_budget-le :
    (parent now d : ℤ) → (t : ℤ) × (with_maybe_budget (some parent) now d ≡ some t) × (t ≤ℤ parent)
unfolding with_maybe_budget
with_maybe_budget-le parent now d = elim (Bool-cases (positive d)) [
  | inl e ↦ (if ltb_ℤ (now +ℤ d) parent then now +ℤ d else parent, ground arith, ground arith)
  | inr e ↦ (parent, ground arith, omega arith)
]
