-- ===== src/Workflow/Calls.antt =====
-- modules/workflow/engine.go: what a step sends to the outside, and the steps that call a tool, an agent
-- or a URL, or test a result. A method that HTTP does not know counts as a request that failed.
use cyntr.Common.{
  ℕ, ◌+◌, String, ◌<>◌, List, [], ◌∷◌, ◌++◌, Option, none, some, Bool, true, false, ◌==◌, string_eq,
  ltb, if◌then◌else◌,
}
use cyntr.Common.Dict.{get, put}
use cyntr.Common.Text.{decimal_text}
use cyntr.Workflow.{Step, Run, StepResult, success, failure}
use cyntr.Workflow.Text.{tool_message, substitute_results}

-- The reply of agent.chat on the bus: an answer, a payload of another type, or an error.
pub data ChatReply : Type 0 where
  content unexpected chat_error : String → ChatReply

pub data HttpReply : Type 0 where
  response : ℕ → String → HttpReply
  http_error : String → HttpReply

-- The reply of the approval topic; a payload that is not a text is the empty text.
pub data ApprovalReply : Type 0 where
  answered approval_error : String → ApprovalReply

-- The outside: what the calls are answered, each counted from the start of the run (a person gives no
-- input when the time is up), netguard.ValidatePublicURL with its error, and the text of
-- time.ParseDuration's result.
pub record World : Type 0 where
  pub chat : ℕ → ChatReply
  pub http : ℕ → HttpReply
  pub approve : ℕ → ApprovalReply
  pub input : ℕ → Option String
  pub url_error : String → Option String
  pub duration_text : String → String

pub data Request : Type 0 where
  chat_request : String → String → String → Request
  http_request : String → String → String → String → Request
  approval_request : String → String → String → String → Request
  input_request : String → Request

-- A run under way, the number of calls made and the requests sent.
pub record Exec : Type 0 where
  pub run : Run
  pub calls : ℕ
  pub sent : List Request

-- step.Config[key], which is "" where the key is missing
unfoldable pub config_of : String → Step → String
config_of key step = elim (get key step.config) [ none ↦ "" | some v ↦ v ]

abbrev pub call : Request → Exec → Exec
call r x = record x { calls = x.calls + 1; sent = x.sent ++ (r ∷ []) }

abbrev pub store : String → StepResult → Exec → Exec
store id r x = record x { run = record x.run { results = put id r x.run.results } }

abbrev pub succeeded : Step → String → StepResult
succeeded s output = record { step_id = s.id; status = success; output = output; error = "" }

abbrev pub failed_with : Step → String → String → StepResult
failed_with s output error = record {
  step_id = s.id;
  status = failure;
  output = output;
  error = error;
}

-- A step's result and the run behind it; none where the fuel runs out.
abbrev pub Outcome : Type 0
Outcome = Option (StepResult × Exec)

abbrev tool_reply : Step → ChatReply → StepResult
tool_reply s (content text) = succeeded s text
tool_reply s (unexpected kind) = failed_with s "" "unexpected response"
tool_reply s (chat_error e) = failed_with s "" e

unfoldable pub execute_tool_call : World → Step → Exec → StepResult × Exec
unfolding config_of
execute_tool_call w s x = (
  tool_reply s (w.chat x.calls),
  call
      (chat_request (config_of "agent" s) x.run.tenant (tool_message (config_of "tool" s) s.config))
      x,
)

abbrev chat_reply : Step → ChatReply → StepResult
chat_reply s (content text) = succeeded s text
chat_reply s (unexpected kind) = failed_with s "" ("unexpected response type: " <> kind)
chat_reply s (chat_error e) = failed_with s "" e

unfoldable pub execute_agent_chat : ℕ → World → Step → Exec → Outcome
unfolding config_of
execute_agent_chat fuel w s x =
    elim (substitute_results fuel x.run.results (config_of "message" s)) [
      | none ↦ none
      | some message ↦ some (
        chat_reply s (w.chat x.calls),
        call (chat_request (config_of "agent" s) x.run.tenant message) x,
      )
    ]

abbrev http_reply : Step → HttpReply → StepResult
http_reply s (http_error e) = failed_with s "" e
http_reply s (response code body) =
    if ltb code 400
    then succeeded s body
    else failed_with s body ("webhook returned " <> decimal_text code)

abbrev pub or_default : String → String → String
or_default default text = if text == "" then default else text

-- A URL that the guard refuses is not requested.
unfoldable pub execute_webhook : World → Step → Exec → StepResult × Exec
unfolding config_of
execute_webhook w s x = elim (w.url_error (config_of "url" s)) [
  | some e ↦ (failed_with s "" e, x)
  | none ↦ (
    http_reply s (w.http x.calls),
    call
        (http_request (or_default "POST" (config_of "method" s)) (config_of "url" s)
          (config_of "body" s) (config_of "authorization" s))
        x,
  )
]

abbrev pub is_success : StepResult → Bool
is_success r = elim r.status [ success ↦ true | failure ↦ false ]

abbrev condition_result : Step → Option StepResult → StepResult
condition_result s none = failed_with s "" ""
condition_result s (some r) = if is_success r then succeeded s "" else failed_with s "" ""

unfoldable pub execute_condition : Step → Exec → StepResult
unfolding config_of
execute_condition s x = condition_result s (get (config_of "check_step" s) x.run.results)
