-- ===== src/Workflow.antt =====
-- modules/workflow/types.go: steps, workflows and runs. Clock readings (StartedAt, CompletedAt, Duration,
pub mod Text
pub mod Calls
pub mod Nested
pub mod Steps
pub mod Runs
pub mod Examples
pub mod Engine
-- Timestamp) and the time limit of a step are left out: no test of the engine reads them.
use cyntr.Common.{ℕ, String, List, Option}
use cyntr.Common.Dict.{Dict}
use cyntr.Common.Int.{ℤ}

pub data StepType : Type 0 where
  tool_call agent_chat condition approval webhook delay parallel loop human_input : StepType
  other : String → StepType

pub record Step : Type 0 where
  pub id : String
  pub name : String
  pub kind : StepType
  pub config : Dict String String
  pub on_success : String
  pub on_failure : String
  pub retry_count : ℤ
  pub sub_steps : List String
  pub loop_over : String

pub record Workflow : Type 0 where
  pub id : String
  pub name : String
  pub description : String
  pub tenant : String
  pub start_step : String
  pub steps : List Step

pub data RunStatus : Type 0 where
  pending running completed failed waiting_approval waiting_input : RunStatus

pub data StepStatus : Type 0 where
  success failure : StepStatus

pub record StepResult : Type 0 where
  pub step_id : String
  pub status : StepStatus
  pub output : String
  pub error : String

-- The text of Run.Error.
pub data RunError : Type 0 where
  step_not_found : String → RunError
  step_failed : String → String → RunError

pub record Run : Type 0 where
  pub id : String
  pub workflow_id : String
  pub tenant : String
  pub status : RunStatus
  pub current_step : String
  pub results : Dict String StepResult
  pub error : Option RunError

pub record Trigger : Type 0 where
  pub kind : String
  pub pattern : String
  pub workflow_id : String
