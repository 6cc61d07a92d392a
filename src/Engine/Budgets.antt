-- ===== src/Engine/Budgets.antt =====
-- pipeline_timeouts.go, and the validator's rule for its fields. A duration is an integer of nanoseconds. `time.ParseDuration` is an
-- argument, which gives none where Go's gives an error.
pub mod Fit
use tkn_act.Base.{
  ℕ, zero, suc, ◌+◌, ◌≤◌, ◌<◌, String, ◌≡◌, refl, Bool, true, false, ◌&&◌, arith, ◌==◌, Option,
  none, some, List, [], ◌∷◌, ◌++◌, is_ok, if◌then◌else◌, Result, ok, err, ◌>>=◌, leb,
}
use tkn_act.Base.Integers.{
  ℤ, pos, negsuc, pos_part, neg_part, ◌-ℤ◌, ◌+ℤ◌, ◌≤ℤ◌, sub_ℕ, add_64, positive, ltb_ℤ,
}
use tkn_act.Tekton.{Timeouts}

-- The zero value says that a level has no budget.
pub record PipelineTimeouts : Type 0 where
  pub pipeline : ℤ
  pub tasks : ℤ
  pub finally : ℤ

pub data TimeoutField : Type 0 where
  pipeline_field tasks_field finally_field : TimeoutField

unfoldable pub parse_field : (String → Option ℤ) → TimeoutField → String → Result TimeoutField ℤ
parse_field parse_duration field s =
    if s == "" then ok (pos 0) else elim (parse_duration s) [ none ↦ err field | some d ↦ ok d ]

unfoldable pub parse_pipeline_timeouts :
    (String → Option ℤ) → Option Timeouts → Result TimeoutField PipelineTimeouts
unfolding parse_field
parse_pipeline_timeouts parse_duration none =
    ok (record { pipeline = pos 0; tasks = pos 0; finally = pos 0 })
parse_pipeline_timeouts parse_duration (some t) = do
  p ← parse_field parse_duration pipeline_field t.pipeline
  ts ← parse_field parse_duration tasks_field t.tasks
  f ← parse_field parse_duration finally_field t.finally
  ok (record { pipeline = p; tasks = ts; finally = f })

unfoldable pub tasks_budget : PipelineTimeouts → ℤ
tasks_budget p =
    if positive p.tasks
    then p.tasks
    else if positive p.pipeline && positive p.finally
    then p.pipeline -ℤ p.finally
    else if positive p.pipeline
    then p.pipeline
    else pos 0

unfoldable pub finally_budget : PipelineTimeouts → ℤ
finally_budget p =
    if positive p.finally
    then p.finally
    else if positive p.pipeline && positive p.tasks
    then p.pipeline -ℤ p.tasks
    else if positive p.pipeline
    then p.pipeline
    else pos 0

-- The deadline that `withMaybeBudget` leaves, from the parent's deadline and the time now; none is
-- no deadline.
abbrev min_ℤ : ℤ → ℤ → ℤ
min_ℤ a b = if ltb_ℤ b a then b else a

unfoldable pub with_maybe_budget : Option ℤ → ℤ → ℤ → Option ℤ
with_maybe_budget parent now d =
    if positive d
    then elim parent [ none ↦ some (now +ℤ d) | some p ↦ some (min_ℤ p (now +ℤ d)) ]
    else parent

-- Rule 8b of internal/validator/validator.go, which runs before the engine.
pub data TimeoutError : Type 0 where
  invalid_duration not_positive : TimeoutField → TimeoutError
  phases_exceed_pipeline : TimeoutError

unfoldable pub parse_timeout : (String → Option ℤ) → TimeoutField → String → Result TimeoutError ℤ
parse_timeout parse_duration field s = elim (parse_duration s) [
  | none ↦ err (invalid_duration field)
  | some d ↦ if positive d then ok d else err (not_positive field)
]

-- an empty field is not parsed, and its duration stays 0
unfoldable pub checked_field : (String → Option ℤ) → TimeoutField → String → Result TimeoutError ℤ
unfolding parse_timeout
checked_field parse_duration field s =
    if s == "" then ok (pos 0) else parse_timeout parse_duration field s

abbrev error_of : Result TimeoutError ℤ → List TimeoutError
error_of (ok _) = []
error_of (err e) = e ∷ []

abbrev value_of : Result TimeoutError ℤ → ℤ
value_of (ok d) = d
value_of (err _) = pos 0

-- the sum of the phases wraps around in int64
unfoldable pub check_timeouts : (String → Option ℤ) → Timeouts → List TimeoutError
unfolding checked_field add_64
check_timeouts parse_duration t =
    let p = checked_field parse_duration pipeline_field t.pipeline in
    let ts = checked_field parse_duration tasks_field t.tasks in
    let f = checked_field parse_duration finally_field t.finally in
    error_of p
    ++ error_of ts
    ++ error_of f
    ++ (if is_ok p
          && is_ok ts
          && is_ok f
          && positive (value_of p)
          && positive (value_of ts)
          && positive (value_of f)
          && ltb_ℤ (value_of p) (add_64 (value_of ts) (value_of f))
        then phases_exceed_pipeline ∷ []
        else [])
