-- ===== src/Engine/Outcome.antt =====
-- The outcomes and events of a run: run.go, and the part of internal/reporter/event.go that the
-- engine's scheduling fills in. A status is one of the texts that the engine and its backends
-- write. A message is kept as the parts that it is formatted from. Durations are not kept: no
-- decision reads them.
use tkn_act.Base.{ℕ, String, Bool, true, false, Option, Map}
use tkn_act.Base.Integers.{ℤ}
use tkn_act.Tekton.{MatrixInfo}

pub data Status : Type 0 where
  succeeded failed infrafailed not_run skipped timeout cancelled : Status

pub data SkipKind : Type 0 where
  ran skip_when skip_blocked skip_stopped : SkipKind

pub data Phase : Type 0 where
  tasks_phase finally_phase : Phase

pub data Message : Type 0 where
  text : String → Message
  task_timeout_exceeded : ℤ → Message
  upstream_failure parent_task_skipped run_cancelled : Message
  results_missing : String → Message
  pipeline_timeout_exceeded : ℤ → Message
  phase_timeout_exceeded : Phase → ℤ → Message

pub record TaskOutcome : Type 0 where
  pub status : Status
  pub message : Message
  pub results : Option (Map String)
  pub attempt : ℕ
  pub matrix : Option MatrixInfo
  pub skip : SkipKind

pub data Event : Type 0 where
  task_start : String → Event
  task_skip : String → Message → Event
  task_retry : String → Status → Message → ℕ → Event
  task_end : String → Status → Message → ℕ → Event

abbrev pub is_succeeded : Status → Bool
is_succeeded succeeded = true
is_succeeded _ = false

-- "failed" and "infrafailed"
abbrev pub is_failure : Status → Bool
is_failure failed = true
is_failure infrafailed = true
is_failure _ = false

abbrev pub is_timeout : Status → Bool
is_timeout timeout = true
is_timeout _ = false

abbrev pub is_skipped : Status → Bool
is_skipped skipped = true
is_skipped _ = false

abbrev pub is_not_run : Status → Bool
is_not_run not_run = true
is_not_run _ = false

abbrev pub is_skip_when : SkipKind → Bool
is_skip_when skip_when = true
is_skip_when _ = false
