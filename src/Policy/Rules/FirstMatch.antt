-- ===== src/Policy/Rules/FirstMatch.antt =====
-- What RuleSet.Evaluate answers on a rule set that LoadRuleSet sorted.
use cyntr.Common.{
  ◌≡◌, refl, ap, ◌∙◌, ◌⊎◌, inl, inr, true, false, List, [], ◌∷◌, Bool-cases, In, In-All, All, arith,
}
use cyntr.Common.Int.{◌≤ℤ◌, ltb_ℤ_asym, ltb_ℤ_trans, ltb_ℤ-le}
use cyntr.Common.Order.{sort_by, IsSorted, sort_by-In, In-sort_by, sort_by-IsSorted}
use cyntr.Policy.Types.{deny, CheckRequest, CheckResponse, PolicyRule, no_matching_rule}
use cyntr.Policy.Rules.{loaded, parse_rules, before, load_rule_set, matches, evaluate_rules}

-- The rule that answers: it applies, its decision and name are returned, and no rule that applies
-- has a higher priority.
pub record Answers (rules : List PolicyRule) (req : CheckRequest) (r : CheckResponse)
    (rule : PolicyRule) : Type 0 where
  pub member : In rule rules
  pub applies : matches rule req ≡ true
  pub decision : r.decision ≡ rule.decision
  pub named : r.rule ≡ rule.name
  pub highest :
      (other : PolicyRule)
      → In other rules
      → matches other req ≡ true
      → other.priority ≤ℤ rule.priority

-- No rule applies, and the answer is the default denial.
pub record DeniesByDefault (rules : List PolicyRule) (req : CheckRequest) (r : CheckResponse)
    : Type 0 where
  pub unmatched : (other : PolicyRule) → In other rules → matches other req ≡ false
  pub denied : r ≡ record { decision = deny; rule = ""; reason = no_matching_rule }

abbrev pub Outcome : List PolicyRule → CheckRequest → CheckResponse → Type 0
Outcome rules req r = ((rule : PolicyRule) × Answers rules req r rule) ⊎ DeniesByDefault rules req r

evaluate_head :
    (rule : PolicyRule) (rules : List PolicyRule) (req : CheckRequest)
    → matches rule req ≡ true
    → All (λ y. before y rule ≡ false) rules
    → Answers (rule ∷ rules) req (evaluate_rules (rule ∷ rules) req) rule
unfolding evaluate_rules
evaluate_head rule rules req t s = record {
  member = inl refl;
  applies = t;
  decision = rw (t, evaluate_rules);
  named = rw (t, evaluate_rules);
  highest = λ other i m. elim i [
    | inl e ↦ rw e (ltb_ℤ-le rule.priority rule.priority (ground arith))
    | inr k ↦
        ltb_ℤ-le rule.priority other.priority (In-All (λ y. before y rule ≡ false) other rules s k)
  ];
}

evaluate_tail :
    (rule : PolicyRule) (rules : List PolicyRule) (req : CheckRequest) (r : CheckResponse)
    → matches rule req ≡ false
    → Outcome rules req r
    → Outcome (rule ∷ rules) req r
evaluate_tail rule rules req r f (inl (found, a)) = inl (
  found,
  record {
    member = inr a.member;
    applies = a.applies;
    decision = a.decision;
    named = a.named;
    highest = λ other i m. elim i [
      | inl e ↦ absurd (cc (ap (λ (x : PolicyRule). matches x req) e))
      | inr k ↦ a.highest other k m
    ];
  },
)
evaluate_tail rule rules req r f (inr d) = inr (record {
  unmatched = λ other i. elim i [
    | inl e ↦ ap (λ (x : PolicyRule). matches x req) e ∙ f
    | inr k ↦ d.unmatched other k
  ];
  denied = d.denied;
})

evaluate_sorted :
    (rules : List PolicyRule) (req : CheckRequest)
    → IsSorted before rules
    → Outcome rules req (evaluate_rules rules req)
unfolding evaluate_rules
evaluate_sorted [] req s = inr (record { unmatched = λ other i. absurd i; denied = refl })
evaluate_sorted (rule ∷ rules) req s = elim (Bool-cases (matches rule req)) [
  | inl t ↦ inl (rule, evaluate_head rule rules req t s.0)
  | inr f ↦
      rw f
        (evaluate_tail rule rules req (evaluate_rules rules req) f (evaluate_sorted rules req s.1))
]

-- Sorting the rules moves none of them in or out.
Outcome-sort :
    (rules : List PolicyRule) (req : CheckRequest) (r : CheckResponse)
    → Outcome (sort_by before rules) req r
    → Outcome rules req r
Outcome-sort rules req r (inl (found, a)) = inl (
  found,
  record {
    member = sort_by-In before found rules a.member;
    applies = a.applies;
    decision = a.decision;
    named = a.named;
    highest = λ other i m. a.highest other (In-sort_by before other rules i) m;
  },
)
Outcome-sort rules req r (inr d) = inr (record {
  unmatched = λ other i. d.unmatched other (In-sort_by before other rules i);
  denied = d.denied;
})

before_asym : (x y : PolicyRule) → before x y ≡ true → before y x ≡ false
before_asym x y h = ltb_ℤ_asym y.priority x.priority h

before_trans : (x y z : PolicyRule) → before y x ≡ false → before z y ≡ false → before z x ≡ false
before_trans x y z h k = ltb_ℤ_trans z.priority y.priority x.priority k h

-- Whatever the configured rules, if every decision text parses then LoadRuleSet succeeds, and on
-- every request the loaded set answers with the decision and the name of an applicable rule that no
-- applicable rule exceeds in priority, or, exactly when no rule applies, with the default denial.
pub evaluate-Outcome :
    (config parsed : List PolicyRule) (req : CheckRequest)
    → parse_rules config ≡ loaded parsed
    → (rules : List PolicyRule) × (load_rule_set config ≡ loaded rules)
      × Outcome parsed req (evaluate_rules rules req)
unfolding load_rule_set
evaluate-Outcome config parsed req h = (
  sort_by before parsed,
  rw h,
  Outcome-sort parsed req _ (
      evaluate_sorted (sort_by before parsed) req
        (sort_by-IsSorted before before_asym before_trans parsed)),
)
