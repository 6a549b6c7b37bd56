-- ===== src/Policy/Types.antt =====
-- modules/policy/types.go. A reason is kept as the format it is printed from and its arguments.
use cyntr.Common.{String}
use cyntr.Common.Int.{ℤ}

pub data Decision : Type 0 where
  deny allow require_approval : Decision

pub record CheckRequest : Type 0 where
  pub tenant : String
  pub action : String
  pub tool : String
  pub agent : String
  pub user : String

pub data Reason : Type 0 where
  matched_rule : String → Reason
  no_matching_rule : Reason
  rego_eval_error : String → Reason
  rego_no_decision : Reason
  rego_not_a_string : Reason
  rego_allowed rego_denied rego_requires_approval : Reason
  rego_unrecognized : String → Reason

pub record CheckResponse : Type 0 where
  pub decision : Decision
  pub rule : String
  pub reason : Reason

pub record PolicyRule : Type 0 where
  pub name : String
  pub tenant : String
  pub action : String
  pub tool : String
  pub agent : String
  pub decision : Decision
  pub decision_str : String
  pub priority : ℤ
