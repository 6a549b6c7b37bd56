-- ===== src/Workflow/Steps.antt =====
-- modules/workflow/engine.go: executeStep and the steps that wait for a person.
use cyntr.Common.{ℕ, zero, suc, String, ◌<>◌, Option, none, some, ◌==◌, string_eq, if◌then◌else◌}
use cyntr.Workflow.{
  Step, StepType, tool_call, agent_chat, condition, approval, webhook, delay, parallel, loop,
  human_input, other, Workflow, waiting_input, StepResult,
}
use cyntr.Workflow.Calls.{
  ApprovalReply, answered, approval_error, World, approval_request, input_request, Exec, config_of,
  call, succeeded, failed_with, Outcome, execute_tool_call, execute_agent_chat, or_default,
  execute_webhook, execute_condition,
}
use cyntr.Workflow.Nested.{execute_parallel, execute_loop}

-- run.Status, which stays so behind the step
abbrev pub waits : Exec → Exec
waits x = record x { run = record x.run { status = waiting_input } }

abbrev pub input_result : Step → Option String → StepResult
input_result s none = failed_with s "" "input timeout"
input_result s (some text) = succeeded s text

unfoldable pub execute_human_input : World → Step → Exec → StepResult × Exec
execute_human_input w s x =
    (input_result s (w.input x.calls), call (input_request x.run.id) (waits x))

-- Any reply other than "approved" fails the step.
abbrev pub approval_result : Step → ApprovalReply → StepResult
approval_result s (approval_error e) = failed_with s "" ("approval unavailable: " <> e)
approval_result s (answered text) =
    if text == "approved"
    then succeeded s "approved"
    else failed_with s "" ("approval denied: " <> text)

unfoldable pub execute_approval : World → Step → Exec → StepResult × Exec
unfolding config_of
execute_approval w s x = (
  approval_result s (w.approve x.calls),
  call
      (approval_request x.run.workflow_id x.run.id s.id
        (or_default "Approval required to continue workflow" (config_of "reason" s)))
      (waits x),
)

unfoldable pub execute_delay : World → Step → StepResult
unfolding config_of
execute_delay w s = succeeded s ("waited " <> w.duration_text (config_of "duration" s))

-- The switch of executeStep; `rec` runs the steps inside a step.
abbrev pub dispatch :
    ℕ → World → Option Workflow → (Step → Exec → Outcome) → StepType → Step → Exec → Outcome
dispatch fuel w wf rec tool_call s x = some (execute_tool_call w s x)
dispatch fuel w wf rec agent_chat s x = execute_agent_chat fuel w s x
dispatch fuel w wf rec webhook s x = some (execute_webhook w s x)
dispatch fuel w wf rec delay s x = some (execute_delay w s, x)
dispatch fuel w wf rec condition s x = some (execute_condition s x, x)
dispatch fuel w wf rec parallel s x = execute_parallel rec wf s x
dispatch fuel w wf rec loop s x = execute_loop rec wf s x
dispatch fuel w wf rec human_input s x = some (execute_human_input w s x)
dispatch fuel w wf rec approval s x = some (execute_approval w s x)
dispatch fuel w wf rec (other kind) s x = some (failed_with s "" ("unknown step type: " <> kind), x)

-- `wf` is the definition that is registered under the run's workflow ID. The fuel bounds the depth of
-- steps inside steps, and the rounds of a substitution.
unfoldable pub execute_step : ℕ → World → Option Workflow → Step → Exec → Outcome
execute_step zero w wf s x = none
execute_step (suc fuel) w wf s x = dispatch (suc fuel) w wf (execute_step fuel w wf) s.kind s x
