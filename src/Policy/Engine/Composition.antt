-- ===== src/Policy/Engine/Composition.antt =====
-- The composed decision is the stricter of the two policies' decisions, whatever they are.
use cyntr.Common.{ℕ, ◌≤◌, ◌≡◌, refl, ap, ◌⊎◌, inl, inr, Option, none, some, max, arith}
use cyntr.Policy.Types.{Decision, deny, allow, require_approval, CheckRequest}
use cyntr.Policy.Rules.{evaluate_rules, LoadResult, loaded, invalid_decision, load_rule_set}
use cyntr.Policy.Rego.{Outcome, evaluate_rego}
use cyntr.Policy.Engine.{
  Engine, evaluate, reload_rules, YamlFile, rego_error, handle_config_reload, reload_rules,
}

-- How much a decision restricts.
abbrev pub strictness : Decision → ℕ
strictness allow = 0
strictness require_approval = 1
strictness deny = 2

-- A missing Rego evaluator restricts nothing.
abbrev pub rego_strictness : Option (CheckRequest → Outcome) → CheckRequest → ℕ
rego_strictness none req = 0
rego_strictness (some eval) req = strictness (evaluate_rego eval req).decision

compose :
    (e : Engine) (req : CheckRequest) (rego : Option (CheckRequest → Outcome))
    → e.rego ≡ rego
    → strictness (evaluate e req).decision
      ≡ max (strictness (evaluate_rules e.rule_set req).decision) (rego_strictness rego req)
unfolding evaluate
compose e req none h = ground arith
compose e req (some eval) h = ground arith

abbrev Source : Engine → CheckRequest → Option (CheckRequest → Outcome) → Type 0
Source e req rego =
    (evaluate e req ≡ evaluate_rules e.rule_set req)
    ⊎ ((eval : CheckRequest → Outcome) × (rego ≡ some eval)
        × (evaluate e req ≡ evaluate_rego eval req))

source :
    (e : Engine) (req : CheckRequest) (rego : Option (CheckRequest → Outcome))
    → e.rego ≡ rego
    → Source e req rego
unfolding evaluate
source e req none h = inl (ground arith)
source e req (some eval) h = elim (from_either e req eval h) [
  | inl a ↦ inl a
  | inr b ↦ inr (eval, refl, b)
]
  where
    from_either :
        (e : Engine) (req : CheckRequest) (eval : CheckRequest → Outcome)
        → e.rego ≡ some eval
        → (evaluate e req ≡ evaluate_rules e.rule_set req)
          ⊎ (evaluate e req ≡ evaluate_rego eval req)
    from_either e req eval h = ground arith

-- For every engine and request, the strictness of the decision is the maximum of that of the YAML
-- rules and that of Rego (0 where no evaluator is loaded), and the response is that of one of the
-- two policies, word for word.
pub evaluate-strictness :
    (e : Engine) (req : CheckRequest)
    → (strictness (evaluate e req).decision
        ≡ max (strictness (evaluate_rules e.rule_set req).decision) (rego_strictness e.rego req))
      × ((evaluate e req ≡ evaluate_rules e.rule_set req)
          ⊎ ((eval : CheckRequest → Outcome) × (e.rego ≡ some eval)
              × (evaluate e req ≡ evaluate_rego eval req)))
evaluate-strictness e req = (compose e req e.rego refl, source e req e.rego refl)

rego-reload :
    (e : Engine) (yaml : YamlFile) → (handle_config_reload e yaml rego_error).rego ≡ e.rego
unfolding handle_config_reload
rego-reload e none = refl
rego-reload e (some config) = reload_loaded e (load_rule_set config)
  where
    reload_loaded : (e : Engine) (l : LoadResult) → (reload_rules e l rego_error).rego ≡ e.rego
    reload_loaded e (loaded rs) = refl
    reload_loaded e (invalid_decision n s) = refl

-- A Rego file that fails to load never weakens the policy: whatever the reloaded YAML says, the
-- decision afterwards is at least as strict as that of the Rego evaluator that was loaded before.
pub reload-keeps_rego :
    (e : Engine) (yaml : YamlFile) (req : CheckRequest)
    → rego_strictness e.rego req
      ≤ strictness (evaluate (handle_config_reload e yaml rego_error) req).decision
reload-keeps_rego e yaml req =
    let e' = handle_config_reload e yaml rego_error in
    omega (
      arith,
      (evaluate-strictness e' req).0,
      ap (λ (r : Option (CheckRequest → Outcome)). rego_strictness r req) (rego-reload e yaml),
    )
