-- ===== src/Policy/Rego.antt =====
-- modules/policy/rego.go: what RegoEvaluator.Evaluate makes of the answer of the OPA library.
-- The prepared query is OPA's, so its `Eval` is an argument: a function from requests to outcomes.
use cyntr.Common.{String, List, [], ◌∷◌, ◌==◌, if◌then◌else◌, string_eq}
use cyntr.Policy.Types.{
  Decision, deny, allow, require_approval, Reason, CheckRequest, CheckResponse, rego_eval_error,
  rego_no_decision, rego_not_a_string, rego_allowed, rego_denied, rego_requires_approval,
  rego_unrecognized,
}

-- A value of an expression in OPA's result, of type `any`.
pub data Value : Type 0 where
  text : String → Value
  other : Value

-- What `query.Eval` returns: an error, or a list of results with their expressions' values.
pub data Outcome : Type 0 where
  failed : String → Outcome
  results : List (List Value) → Outcome

abbrev pub response : Decision → Reason → CheckResponse
response d r = record { decision = d; rule = "rego"; reason = r }

unfoldable pub decide : String → CheckResponse
decide s =
    if s == "allow"
    then response allow rego_allowed
    else if s == "deny"
    then response deny rego_denied
    else if s == "require_approval"
    then response require_approval rego_requires_approval
    else response deny (rego_unrecognized s)

-- From `results, err := e.query.Eval(…)` to the end of Evaluate.
unfoldable pub respond : Outcome → CheckResponse
unfolding decide
respond (failed e) = response deny (rego_eval_error e)
respond (results []) = response deny rego_no_decision
respond (results ([] ∷ _)) = response deny rego_no_decision
respond (results ((text s ∷ _) ∷ _)) = decide s
respond (results ((other ∷ _) ∷ _)) = response deny rego_not_a_string

unfoldable pub evaluate_rego : (CheckRequest → Outcome) → CheckRequest → CheckResponse
unfolding respond
evaluate_rego eval req = respond (eval req)
