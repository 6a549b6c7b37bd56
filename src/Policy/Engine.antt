-- ===== src/Policy/Engine.antt =====
-- modules/policy/engine.go: the composed decision and the reload of the two policies.
pub mod Composition
use cyntr.Common.{String, List, Option, none, some, ◌∷◌}
use cyntr.Policy.Types.{
  Decision, deny, allow, require_approval, CheckRequest, CheckResponse, PolicyRule,
}
use cyntr.Policy.Rules.{LoadResult, loaded, invalid_decision, load_rule_set, evaluate_rules}
use cyntr.Policy.Rego.{Outcome, evaluate_rego}

-- The fields of Engine that decide: `rego` is none where the evaluator is nil.
pub record Engine : Type 0 where
  pub rule_set : List PolicyRule
  pub rego : Option (CheckRequest → Outcome)

-- The end of `evaluate`, where neither policy denies.
abbrev pub stricter_of : CheckResponse → CheckResponse → Decision → Decision → CheckResponse
stricter_of yaml rego require_approval _ = yaml
stricter_of yaml rego _ require_approval = rego
stricter_of yaml rego _ _ = yaml

abbrev pub unless_rego_denies : CheckResponse → CheckResponse → Decision → CheckResponse
unless_rego_denies yaml rego deny = rego
unless_rego_denies yaml rego d = stricter_of yaml rego yaml.decision d

abbrev pub consult_rego :
    Option (CheckRequest → Outcome) → CheckRequest → CheckResponse → CheckResponse
consult_rego none req yaml = yaml
consult_rego (some eval) req yaml =
    let rego = evaluate_rego eval req in unless_rego_denies yaml rego rego.decision

abbrev pub unless_yaml_denies : Engine → CheckRequest → CheckResponse → Decision → CheckResponse
unless_yaml_denies e req yaml deny = yaml
unless_yaml_denies e req yaml _ = consult_rego e.rego req yaml

unfoldable pub evaluate : Engine → CheckRequest → CheckResponse
evaluate e req =
    let yaml = evaluate_rules e.rule_set req in unless_yaml_denies e req yaml yaml.decision

-- What the reload reads: the rules of the YAML file, or none where it cannot be read or parsed …
abbrev pub YamlFile : Type 0
YamlFile = Option (List PolicyRule)

-- … and what LoadRegoPolicy returns.
pub data RegoFile : Type 0 where
  rego_error : RegoFile
  rego_loaded : Option (CheckRequest → Outcome) → RegoFile

abbrev pub reload_rego : Engine → RegoFile → Engine
reload_rego e rego_error = e
reload_rego e (rego_loaded r) = record e { rego = r }

abbrev pub reload_rules : Engine → LoadResult → RegoFile → Engine
reload_rules e (invalid_decision n s) rego = e
reload_rules e (loaded rs) rego = reload_rego (record e { rule_set = rs }) rego

unfoldable pub handle_config_reload : Engine → YamlFile → RegoFile → Engine
handle_config_reload e none rego = e
handle_config_reload e (some config) rego = reload_rules e (load_rule_set config) rego
