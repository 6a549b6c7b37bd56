-- ===== src/Workflow/Examples.antt =====
-- Concrete runs of the workflow engine: a payment behind an approval, a trigger, and a chat step whose
-- placeholder stands in its own output.
use cyntr.Common.{
  String, ◌≡◌, ◌≢◌, refl, sym, ap, ◌∙◌, List, [], ◌∷◌, Option, none, some, ◌==◌, string_eq, str_iff,
  Bool-cases, inl, inr, map, select,
}
use mathlib.Core.Option.{some-injective}
use cyntr.Common.Int.{pos}
use cyntr.Common.Dict.{get, put}
use cyntr.Common.Text.{cut_at}
use cyntr.Workflow.{Step, approval, tool_call, Workflow, running, Trigger}
use cyntr.Workflow.Text.{substitute_var}
use cyntr.Workflow.Text.Endless.{substitute_var-endless}
use cyntr.Workflow.{waiting_input}
use cyntr.Workflow.Calls.{
  succeeded, approval_request, World, Exec, content, http_error, answered, config_of,
}
use cyntr.Workflow.Nested.{last_step}
use cyntr.Workflow.Steps.{execute_step, execute_approval}
use cyntr.Workflow.Runs.{round, attempt}
use cyntr.Workflow.Runs.Gate.{start, follow, Guards, Approved, gate-Approved}
use cyntr.Workflow.Engine.{
  Regex, Topic, Payload, fires, trigger, activity, trigger_add, agent_activity, handle, new_engine,
}
use cyntr.Workflow.Engine.Triggers.{handle_all, target, fires_on, agent_activity-fires}

substitute_var-endless_example : substitute_var 100 "say {{a}} again" "{{a}}" "now {{a}}" ≡ none
unfolding cut_at
substitute_var-endless_example =
    substitute_var-endless 100 "say {{a}} again" "{{a}}" "now {{a}}" (("say ", " again"), refl)
      (("now ", ""), refl)

abbrev ask : Step
ask = record {
  id = "ask";
  name = "";
  kind = approval;
  config = [];
  on_success = "pay";
  on_failure = "";
  retry_count = pos 2;
  sub_steps = [];
  loop_over = "";
}

abbrev pay : Step
pay = record {
  id = "pay";
  name = "";
  kind = tool_call;
  config = [];
  on_success = "";
  on_failure = "";
  retry_count = pos 0;
  sub_steps = [];
  loop_over = "";
}

abbrev payment : Workflow
payment = record {
  id = "wf_1";
  name = "";
  description = "";
  tenant = "acme";
  start_step = "ask";
  steps = ask ∷ pay ∷ [];
}

abbrev outside : World
outside = record {
  chat = λ n. content "done";
  http = λ n. http_error "down";
  approve = λ n. answered "approved";
  input = λ n. none;
  url_error = λ u. none;
  duration_text = λ d. "0s";
}

abbrev first_moment : Exec
first_moment = record {
  run = record {
    id = "run_1";
    workflow_id = "wf_1";
    tenant = "acme";
    status = running;
    current_step = "ask";
    results = [];
    error = none;
  };
  calls = 0;
  sent = [];
}

only_two :
    (id : String) (s : Step)
    → last_step id payment.steps ≡ some s
    → id ≢ "ask"
    → (s.on_success ≢ "pay") × (s.on_failure ≢ "pay")
unfolding last_step
only_two id s e n = elim (Bool-cases ("pay" == id)) [
  | inl y ↦
      let same : pay ≡ s = some-injective _ _ (rw (last_step, y) at e) in
      (
        λ h. absurd (cc ((str_iff "" "pay").1 (ap (λ (t : Step). t.on_success) same ∙ h))),
        λ h. absurd (cc ((str_iff "" "pay").1 (ap (λ (t : Step). t.on_failure) same ∙ h))),
      )
  | inr m ↦ elim (Bool-cases ("ask" == id)) [
    | inl y ↦ absurd (n (sym ((str_iff "ask" id).0 y)))
    | inr k ↦ absurd (cc (rw (last_step, m, k) at e))
  ]
]

payment-Guards : Guards 5 outside (some payment) payment "ask" "pay"
unfolding last_step
payment-Guards = record {
  gate_step = ask;
  found = refl;
  asks = refl;
  not_first = λ h. absurd (cc ((str_iff "pay" "ask").1 h));
  no_failure_edge = λ h. absurd (cc h);
  no_other_edge = only_two;
}

-- Before the payment, with the approval's request sent and its result stored.
abbrev approved_moment : Exec
approved_moment = record {
  run = record first_moment.run {
    status = waiting_input;
    results = ("ask", succeeded ask "approved") ∷ [];
  };
  calls = 1;
  sent = approval_request "wf_1" "run_1" "ask" "Approval required to continue workflow" ∷ [];
}

gate-Approved_example : Approved 5 outside (some payment) "ask" approved_moment
unfolding round attempt execute_step execute_approval last_step config_of put get
gate-Approved_example =
    gate-Approved 5 outside (some payment) payment first_moment approved_moment "ask" "pay"
      payment-Guards (follow start refl refl)

abbrev compile : String → Option Regex
compile pattern = some (λ (s : String). s == pattern)

abbrev on_error : Trigger
on_error = record { kind = "audit_event"; pattern = "error"; workflow_id = "wf_1" }

abbrev added_trigger : List (Topic × Payload)
added_trigger = (trigger_add, trigger on_error) ∷ []

agent_activity-fires_example :
    (handle compile agent_activity
      (activity "error" "disk full")
      (handle_all compile added_trigger new_engine)).1
    ≡ fires (
        map (target compile) (
          select
            (fires_on compile "error" "disk full")
            (handle_all compile added_trigger new_engine).triggers))
agent_activity-fires_example = agent_activity-fires compile added_trigger "error" "disk full"
