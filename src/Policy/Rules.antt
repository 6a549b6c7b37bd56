-- ===== src/Policy/Rules.antt =====
-- modules/policy/rules.go: loading a rule set from its parsed YAML, and evaluating it.
pub mod FirstMatch
use cyntr.Common.{
  ℕ, String, ◌≡◌, Bool, true, false, ◌||◌, ◌&&◌, List, [], ◌∷◌, Option, none, some, ◌!=◌, ◌==◌,
  if◌then◌else◌, string_eq,
}
use cyntr.Common.Int.{ltb_ℤ}
use cyntr.Common.Order.{sort_by}
use cyntr.Policy.Types.{
  Decision, deny, allow, require_approval, CheckRequest, CheckResponse, PolicyRule, matched_rule,
  no_matching_rule,
}

-- The errors of LoadRuleSet after the file is read and unmarshalled.
pub data LoadResult : Type 0 where
  loaded : List PolicyRule → LoadResult
  -- the rule's name and its decision text
  invalid_decision : String → String → LoadResult

unfoldable pub parse_decision : String → Option Decision
parse_decision s =
    if s == "allow"
    then some allow
    else if s == "deny"
    then some deny
    else if s == "require_approval"
    then some require_approval
    else none

abbrev pub keep_rule : PolicyRule → LoadResult → LoadResult
keep_rule r (loaded rs) = loaded (r ∷ rs)
keep_rule r (invalid_decision n s) = invalid_decision n s

-- The loop of LoadRuleSet that fills in `Decision`; it stops at the first invalid text.
unfoldable pub parse_rules : List PolicyRule → LoadResult
parse_rules [] = loaded []
parse_rules (r ∷ rs) =
    let rest = parse_rules rs in
    elim (parse_decision r.decision_str) [
      | none ↦ invalid_decision r.name r.decision_str
      | some d ↦ keep_rule (record r { decision = d }) rest
    ]

-- `less` of the sort: higher priorities first.
abbrev pub before : PolicyRule → PolicyRule → Bool
before a b = ltb_ℤ b.priority a.priority

abbrev pub sort_rules : LoadResult → LoadResult
sort_rules (loaded rs) = loaded (sort_by before rs)
sort_rules (invalid_decision n s) = invalid_decision n s

unfoldable pub load_rule_set : List PolicyRule → LoadResult
unfolding parse_rules parse_decision
load_rule_set rules = sort_rules (parse_rules rules)

unfoldable pub matches : PolicyRule → CheckRequest → Bool
matches rule req =
    if rule.tenant != "*" && rule.tenant != req.tenant
    then false
    else if rule.action != "*" && rule.action != req.action
    then false
    else if rule.tool != "*" && rule.tool != req.tool
    then false
    else if rule.agent != "*" && rule.agent != req.agent
    then false
    else true

unfoldable pub evaluate_rules : List PolicyRule → CheckRequest → CheckResponse
evaluate_rules [] req = record { decision = deny; rule = ""; reason = no_matching_rule }
evaluate_rules (rule ∷ rules) req =
    if matches rule req
    then record { decision = rule.decision; rule = rule.name; reason = matched_rule rule.name }
    else evaluate_rules rules req
