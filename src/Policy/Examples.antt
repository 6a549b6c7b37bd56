-- ===== src/Policy/Examples.antt =====
-- Concrete runs of the policy: two rules, an approval queue with a few requests, and the handlers.
use cyntr.Common.{
  String, ◌≡◌, ◌≢◌, refl, ◌⊎◌, ◌↔◌, List, [], ◌∷◌, none, some, max, arith, In, All, string_eq,
}
use cyntr.Common.Int.{pos, negsuc}
use cyntr.Common.Dict.{get, IsDistinct}
use cyntr.Common.Order.{IsSorted}
use cyntr.Policy.Types.{deny, allow, CheckRequest, PolicyRule}
use cyntr.Policy.Rules.{loaded, parse_rules, parse_decision, load_rule_set, evaluate_rules}
use cyntr.Policy.Rules.FirstMatch.{Outcome, evaluate-Outcome}
use cyntr.Policy.Rego.{evaluate_rego}
use cyntr.Policy.Engine.{Engine, evaluate}
use cyntr.Policy.Engine.Composition.{strictness, rego_strictness, evaluate-strictness}
use cyntr.Policy.Approval.{
  ApprovalRequest, ApprovalQueue, pending, denied, list_pending, created_before,
}
use cyntr.Policy.Approval.Decided.{
  Op, do_submit, do_approve, do_deny, do_sweep, do_list, run, run-final, Spares, HeldOrGone,
}
use cyntr.Policy.Approval.Retained.{run-kept}
use cyntr.Policy.Approval.Listing.{IsOpen, list_pending-IsOpen}
use cyntr.Policy.Approval.Handlers.{Moment, Message, approval_approve, params, handle}
use cyntr.Policy.Approval.Handlers.Authorized.{Attributed, handle-Attributed}
use cyntr.Common.{str_iff}
use cyntr.Common.{inl}

abbrev shell_rule : PolicyRule
shell_rule = record {
  name = "no-shell";
  tenant = "*";
  action = "tool_call";
  tool = "shell";
  agent = "*";
  decision = deny;
  decision_str = "deny";
  priority = pos 20;
}

abbrev any_rule : PolicyRule
any_rule = record {
  name = "allow-all";
  tenant = "acme";
  action = "*";
  tool = "*";
  agent = "*";
  decision = allow;
  decision_str = "allow";
  priority = negsuc 4;
}

abbrev shell_call : CheckRequest
shell_call = record {
  tenant = "acme";
  action = "tool_call";
  tool = "shell";
  agent = "helper";
  user = "jane";
}

evaluate-Outcome_example :
    (rules : List PolicyRule) × (load_rule_set (any_rule ∷ shell_rule ∷ []) ≡ loaded rules)
    × Outcome (any_rule ∷ shell_rule ∷ []) shell_call (evaluate_rules rules shell_call)
unfolding parse_rules parse_decision
evaluate-Outcome_example =
    evaluate-Outcome (any_rule ∷ shell_rule ∷ []) (any_rule ∷ shell_rule ∷ []) shell_call refl

abbrev engine : Engine
engine = record { rule_set = any_rule ∷ []; rego = none }

evaluate-strictness_example :
    (strictness (evaluate engine shell_call).decision
      ≡ max
          (strictness (evaluate_rules engine.rule_set shell_call).decision)
          (rego_strictness engine.rego shell_call))
    × ((evaluate engine shell_call ≡ evaluate_rules engine.rule_set shell_call)
        ⊎ ((eval : CheckRequest → _) × (engine.rego ≡ some eval)
            × (evaluate engine shell_call ≡ evaluate_rego eval shell_call)))
evaluate-strictness_example = evaluate-strictness engine shell_call

abbrev waiting : ApprovalRequest
waiting = record {
  id = "apr_1";
  tenant = "acme";
  user = "jane";
  agent = "helper";
  action = "tool_call";
  tool = "shell";
  rule = "no-shell";
  status = pending;
  created_at = 10;
  expires_at = 110;
  decided_by = "";
  decided_at = 0;
}

abbrev settled : ApprovalRequest
settled = record waiting { id = "apr_2"; status = denied; decided_by = "joe"; decided_at = 50 }

abbrev queue : ApprovalQueue
queue = record { requests = ("apr_1", waiting) ∷ ("apr_2", settled) ∷ []; ttl = 100; retain = 1000 }

queue-IsDistinct : IsDistinct queue.requests
unfolding get
queue-IsDistinct = (refl, (refl, tt))

abbrev history : List Op
history =
    do_approve "apr_2" "eve" 60 61
    ∷ do_submit "apr_3" 62 63 waiting
    ∷ do_deny "apr_1" "joe" 70
    ∷ do_sweep 200
    ∷ do_list 300
    ∷ []

denied≢pending : denied ≢ pending
denied≢pending e = absurd cc

other_id : ◌≢◌ {A = String} "apr_1" "apr_2"
other_id e = absurd (ground (arith, (str_iff "apr_1" "apr_2").1 e))

history-Spares : All (Spares "apr_2") history
history-Spares = (tt, (other_id, (tt, (tt, (tt, tt)))))

run-final_example : HeldOrGone "apr_2" settled denied≢pending (run queue history)
unfolding get
run-final_example =
    run-final "apr_2" settled denied≢pending queue history queue-IsDistinct history-Spares
      (inl refl)

run-kept_example : get "apr_2" (run queue history).requests ≡ some settled
unfolding get
run-kept_example =
    run-kept "apr_2" settled denied≢pending 1000 queue history queue-IsDistinct refl history-Spares
      (tt, (omega arith, (tt, (omega arith, (omega arith, tt))))) refl

list_pending-IsOpen_example :
    ((x : ApprovalRequest) → In x (list_pending 60 queue).1 ↔ IsOpen 60 queue x)
    × IsSorted created_before (list_pending 60 queue).1
list_pending-IsOpen_example = list_pending-IsOpen 60 queue queue-IsDistinct

abbrev moment : Moment
moment = record { first = 60; second = 61; fresh = "apr_9" }

abbrev verdict : Message
verdict = record { source = "cli"; payload = params (("id", "apr_1") ∷ ("decided_by", "joe") ∷ []) }

handle-Attributed_example :
    Attributed verdict queue (handle approval_approve moment verdict queue).0
handle-Attributed_example = handle-Attributed approval_approve moment verdict queue queue-IsDistinct
