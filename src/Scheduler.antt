-- ===== src/Scheduler.antt =====
-- modules/scheduler/types.go: scheduled jobs and the record of a run. Times and durations are
-- nanoseconds from Go's zero time, which is 0.
pub mod Cron
pub mod Ticks
pub mod Service
pub mod Examples
use cyntr.Common.{ℕ, Bool, String, List, Option}

pub data JobCondition : Type 0 where
  output_changed : JobCondition
  output_matches : String → JobCondition
  other : String → JobCondition

pub record Job : Type 0 where
  pub id : String
  pub name : String
  pub tenant : String
  pub agent : String
  pub message : String
  pub interval : ℕ
  pub cron_expr : String
  pub last_run : ℕ
  pub next_run : ℕ
  pub enabled : Bool
  pub dest_channel : String
  pub dest_channel_id : String
  pub condition : Option JobCondition
  pub depends_on : List String
  pub report_mode : Bool
  pub report_title : String

pub data RunStatus : Type 0 where
  success failure : RunStatus

-- The ID, which is drawn from the clock, and the duration are left out.
pub record JobRun : Type 0 where
  pub job_id : String
  pub status : RunStatus
  pub output : String
  pub error : String
  pub started_at : ℕ
