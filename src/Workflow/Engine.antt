-- ===== src/Workflow/Engine.antt =====
-- modules/workflow/engine.go: the handlers of the engine on the bus.
pub mod Triggers
use Prim.Native.String.{len}
use cyntr.Common.{
  ℕ, ◌+◌, String, ◌<>◌, List, [], ◌∷◌, ◌++◌, Option, none, some, Bool, true, false, ◌==◌, string_eq,
  ltb, if◌then◌else◌, map,
}
use cyntr.Common.Dict.{Dict, get, put, remove}
use cyntr.Common.Text.{decimal_text}
use cyntr.Workflow.{Workflow, Run, running, Trigger}

-- A compiled pattern: which texts it matches. Compiling (regexp.Compile) is an argument.
abbrev pub Regex : Type 0
Regex = String → Bool

-- A run that waits for input has a channel with room for one text.
pub record Engine : Type 0 where
  pub workflows : Dict String Workflow
  pub runs : Dict String Run
  pub waiting_inputs : Dict String (Option String)
  pub triggers : List Trigger
  pub counter : ℕ
  pub regex_cache : Dict String Regex

unfoldable pub new_engine : Engine
new_engine = record {
  workflows = [];
  runs = [];
  waiting_inputs = [];
  triggers = [];
  counter = 0;
  regex_cache = [];
}

-- A payload of type `any`: the types that the handlers assert, and any other.
pub data Payload : Type 0 where
  workflow : Workflow → Payload
  params : Dict String String → Payload
  text : String → Payload
  trigger : Trigger → Payload
  activity : String → String → Payload
  unknown : Payload

pub data Topic : Type 0 where
  register run status list list_runs get_workflow submit_input trigger_add trigger_list
        agent_activity :
      Topic

pub data Reply : Type 0 where
  registered started submitted : String → Reply
  run_is : Run → Reply
  workflow_is : Workflow → Reply
  ids_are : List String → Reply
  runs_are : List Run → Reply
  triggers_are : List Trigger → Reply
  added bad_payload not_found no_waiting_input blocked bad_pattern nothing : Reply
  -- the workflows that an event starts
  fires : List String → Reply

unfoldable pub param : String → Dict String String → String
param key m = elim (get key m) [ none ↦ "" | some v ↦ v ]

abbrev pub new_workflow_id : Engine → String
new_workflow_id e = "wf_" <> decimal_text (e.counter + 1)

abbrev pub register_as : String → Workflow → Engine → Engine × Reply
register_as id wf e =
    (record e { workflows = put id (record wf { id = id }) e.workflows }, registered id)

unfoldable pub register_workflow : Workflow → Engine → Engine × Reply
register_workflow wf e =
    if wf.id == ""
    then register_as (new_workflow_id e) wf (record e { counter = e.counter + 1 })
    else register_as wf.id wf e

abbrev pub new_run : String → String → Workflow → Run
new_run id wf_id wf = record {
  id = id;
  workflow_id = wf_id;
  tenant = wf.tenant;
  status = running;
  current_step = wf.start_step;
  results = [];
  error = none;
}

-- The run is executed behind the reply.
unfoldable pub run_workflow : String → Engine → Engine × Reply
run_workflow wf_id e = elim (get wf_id e.workflows) [
  | none ↦ (e, not_found)
  | some wf ↦
      let id = "run_" <> decimal_text (e.counter + 1) in
      (record e { counter = e.counter + 1; runs = put id (new_run id wf_id wf) e.runs }, started id)
]

unfoldable pub run_status : String → Engine → Reply
run_status id e = elim (get id e.runs) [ none ↦ not_found | some r ↦ run_is r ]

unfoldable pub workflow_of : String → Engine → Reply
workflow_of id e = elim (get id e.workflows) [ none ↦ not_found | some wf ↦ workflow_is wf ]

-- executeHumanInputStep makes a channel and takes it away at its end.
unfoldable pub open_input : String → Engine → Engine
open_input run_id e = record e { waiting_inputs = put run_id none e.waiting_inputs }

unfoldable pub close_input : String → Engine → Engine
close_input run_id e = record e { waiting_inputs = remove run_id e.waiting_inputs }

-- A channel that is full blocks the handler.
abbrev pub send_input : String → String → Option (Option String) → Engine → Engine × Reply
send_input run_id input none e = (e, no_waiting_input)
send_input run_id input (some (some earlier)) e = (e, blocked)
send_input run_id input (some none) e =
    (record e { waiting_inputs = put run_id (some input) e.waiting_inputs }, submitted "submitted")

unfoldable pub submit : Dict String String → Engine → Engine × Reply
unfolding param
submit m e =
    send_input (param "run_id" m) (param "input" m) (get (param "run_id" m) e.waiting_inputs) e

abbrev pub max_pattern_len : ℕ
max_pattern_len = 512

abbrev pub remember : String → Option Regex → Engine → Engine × Option Regex
remember pattern none e = (e, none)
remember pattern (some re) e = (record e { regex_cache = put pattern re e.regex_cache }, some re)

-- None is the error of an empty, oversized or invalid pattern.
unfoldable pub compile_pattern : (String → Option Regex) → String → Engine → Engine × Option Regex
compile_pattern compile pattern e =
    if pattern == ""
    then (e, none)
    else if ltb max_pattern_len (len pattern)
    then (e, none)
    else elim (get pattern e.regex_cache) [
      | some re ↦ (e, some re)
      | none ↦ remember pattern (compile pattern) e
    ]

abbrev pub append_trigger : Trigger → Engine × Option Regex → Engine × Reply
append_trigger t (e, none) = (e, bad_pattern)
append_trigger t (e, some re) = (record e { triggers = e.triggers ++ (t ∷ []) }, added)

unfoldable pub add_trigger : (String → Option Regex) → Trigger → Engine → Engine × Reply
unfolding compile_pattern
add_trigger compile t e = append_trigger t (compile_pattern compile t.pattern e)

abbrev pub trigger_of : Dict String String → Trigger
trigger_of m = record {
  kind = param "type" m;
  pattern = param "pattern" m;
  workflow_id = param "workflow_id" m;
}

abbrev pub fire : Trigger → String → String → Option Regex → List String → List String
fire t event detail none ids = ids
fire t event detail (some re) ids =
    if re event then t.workflow_id ∷ ids else if re detail then t.workflow_id ∷ ids else ids

abbrev pub fired :
    Trigger → String → String → Option Regex → Engine × List String → Engine × List String
fired t event detail o (e, ids) = (e, fire t event detail o ids)

-- The loop over the copied triggers: the engine behind it, and the workflows that it starts.
unfoldable pub match_triggers :
    (String → Option Regex) → String → String → List Trigger → Engine → Engine × List String
match_triggers compile event detail [] e = (e, [])
match_triggers compile event detail (t ∷ ts) e =
    let passed = match_triggers compile event detail ts e in
    let (e', re) = compile_pattern compile t.pattern e in
    let tried = fired t event detail re (match_triggers compile event detail ts e') in
    if t.kind == "audit_event" then tried else passed

abbrev pub add_payload : (String → Option Regex) → Payload → Engine → Engine × Reply
add_payload compile (trigger t) e = add_trigger compile t e
add_payload compile (params m) e = add_trigger compile (trigger_of m) e
add_payload compile _ e = (e, bad_payload)

abbrev pub activity_payload : (String → Option Regex) → Payload → Engine → Engine × Reply
activity_payload compile (activity event detail) e =
    let (e', ids) = match_triggers compile event detail e.triggers e in (e', fires ids)
activity_payload compile _ e = (e, nothing)

abbrev pub register_payload : Payload → Engine → Engine × Reply
register_payload (workflow wf) e = register_workflow wf e
register_payload _ e = (e, bad_payload)

abbrev pub run_payload : Payload → Engine → Engine × Reply
run_payload (params m) e = run_workflow (param "workflow_id" m) e
run_payload _ e = (e, bad_payload)

abbrev pub submit_payload : Payload → Engine → Engine × Reply
submit_payload (params m) e = submit m e
submit_payload _ e = (e, bad_payload)

abbrev pub text_payload : (String → Engine → Reply) → Payload → Engine → Engine × Reply
text_payload f (text id) e = (e, f id e)
text_payload f _ e = (e, bad_payload)

abbrev pub key_of {ℓ} : {V : Type ℓ} → String × V → String
key_of e = e.0

abbrev pub value_of {ℓ} : {V : Type ℓ} → String × V → V
value_of e = e.1

-- The topics as Engine.Start registers them, and the subscription to agent.activity.
unfoldable pub handle : (String → Option Regex) → Topic → Payload → Engine → Engine × Reply
handle compile register p e = register_payload p e
handle compile run p e = run_payload p e
handle compile status p e = text_payload run_status p e
handle compile list p e = (e, ids_are (map key_of e.workflows))
handle compile list_runs p e = (e, runs_are (map value_of e.runs))
handle compile get_workflow p e = text_payload workflow_of p e
handle compile submit_input p e = submit_payload p e
handle compile trigger_add p e = add_payload compile p e
handle compile trigger_list p e = (e, triggers_are e.triggers)
handle compile agent_activity p e = activity_payload compile p e
