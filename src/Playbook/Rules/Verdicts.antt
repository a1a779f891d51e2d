-- ===== src/Playbook/Rules/Verdicts.antt =====
-- The rules that `evaluate_playbook` of app/playbooks/evaluator.py looks at, and the contract of
-- app/playbooks/schema.py on which this rests.
use weiquan_agent.Prelude.{
  ◌≤◌, Bool, true, false, Option, some, none, List, [], ◌∷◌, ◌++◌, if◌then◌else◌, string_eq, ok,
  count, all, ◌≡◌, refl, ap, ◌∙◌, Bool-cases, inl, inr, arith, All,
}
use mathlib.Core.List.{append-nil, append_assoc}
use weiquan_agent.Playbook.{Platform, Facts, Condition}
use weiquan_agent.Playbook.Evaluator.{evaluate_condition}
use weiquan_agent.Playbook.Rules.{
  RuleDefinition, RuleMatch, Playbook, validate_branch, rule_match, run_rules,
}
use weiquan_agent.Playbook.Rules.Contract.{
  last_rule, ends_in_default, is_known, default_is_cautious, validate_verdicts,
}

module _ {N : Type 0} (playbook : Playbook N) where
  -- What a valid contract says of the rules and their verdicts.
  pub record IsSound : Type 0 where
    pub one_default : count (λ r. r.is_default) playbook.rules ≡ 1
    pub default_last : ends_in_default (last_rule playbook.rules) ≡ true
    pub verdicts_known : all (λ r. is_known playbook.verdicts r.verdict) playbook.rules ≡ true
    pub cautious : default_is_cautious playbook.verdicts (last_rule playbook.rules) ≡ true

pub validate_verdicts-IsSound :
    (p : Platform) (playbook : Playbook p.N)
    → validate_verdicts p playbook ≡ ok tt
    → IsSound playbook
unfolding validate_verdicts
validate_verdicts-IsSound p playbook h = record {
  one_default = ground (arith, h);
  default_last = ground (arith, h);
  verdicts_known = ground (arith, h);
  cautious = ground (arith, h);
}

module _ {N : Type 0} where
  unfoldable pub first_rule :
      (RuleDefinition N → Bool) → List (RuleDefinition N) → Option (RuleDefinition N)
  first_rule f [] = none
  first_rule f (r ∷ rs) = if f r then some r else first_rule f rs

  has_default :
      (rs : List (RuleDefinition N))
      → ends_in_default (last_rule rs) ≡ true
      → 1 ≤ count (λ r. r.is_default) rs
  unfolding last_rule
  has_default [] h = cc
  has_default (x ∷ []) h = ground (arith, h)
  has_default (x ∷ (y ∷ ys)) h = omega (arith, has_default (y ∷ ys) h)

  module _ (f : RuleDefinition N → Bool)
      (defaults_apply : (r : RuleDefinition N) → r.is_default ≡ true → f r ≡ true) where
    -- The first rule that applies, if it is the default rule, is the last one.
    pub first_rule-last :
        (rs : List (RuleDefinition N)) (r : RuleDefinition N)
        → count (λ r. r.is_default) rs ≡ 1
        → ends_in_default (last_rule rs) ≡ true
        → first_rule f rs ≡ some r
        → r.is_default ≡ true
        → last_rule rs ≡ some r
    unfolding first_rule last_rule
    first_rule-last [] r c e h d = cc
    first_rule-last (x ∷ []) r c e h d = ground (arith, h)
    first_rule-last (x ∷ (y ∷ ys)) r c e h d = elim (Bool-cases (f x)) [
      | inl applies ↦
          let same : x ≡ r = ground (arith, h, applies) in
          let is_default : x.is_default ≡ true =
            ap (λ (q : RuleDefinition N). q.is_default) same ∙ d in
          absurd (ground (arith, has_default (y ∷ ys) e, c, is_default))
      | inr skipped ↦ elim (Bool-cases x.is_default) [
        | inl is_default ↦ absurd (cc (skipped, defaults_apply x is_default))
        | inr other ↦ first_rule-last (y ∷ ys) r (ground (arith, c, other)) e (rw skipped at h) d
      ]
    ]

    pub first_rule-exists :
        (rs : List (RuleDefinition N)) (known : RuleDefinition N → Bool)
        → ends_in_default (last_rule rs) ≡ true
        → all known rs ≡ true
        → (r : RuleDefinition N) × (first_rule f rs ≡ some r) × (known r ≡ true)
    unfolding first_rule last_rule
    first_rule-exists [] known e k = absurd (cc e)
    first_rule-exists (x ∷ []) known e k = (x, rw (defaults_apply x e) refl, ground (arith, k))
    first_rule-exists (x ∷ (y ∷ ys)) known e k = elim (Bool-cases (f x)) [
      | inl applies ↦ (x, rw applies refl, ground (arith, k))
      | inr skipped ↦
          let rest = first_rule-exists (y ∷ ys) known e (ground (arith, k)) in
          (rest.0, rw skipped rest.1, rest.2)
    ]

module _ (p : Platform) where
  open p use {N}

  -- A rule applies if it is the default rule or its condition matches the facts.
  unfoldable pub applies : Facts N → RuleDefinition N → Bool
  applies facts r =
      if r.is_default
      then true
      else elim r.condition [ none ↦ false | some c ↦ (evaluate_condition p c facts).matched ]

  abbrev pub AreValid : List (RuleDefinition N) → Type 0
  AreValid rules = All (λ r. validate_branch r ≡ ok tt) rules

  -- How the loop explains a rule that it looked at.
  abbrev pub explain : Facts N → RuleDefinition N → RuleMatch
  explain facts r =
      if r.is_default
      then rule_match p r (record { matched = true; inputs = [] })
      else elim r.condition [
        | none ↦ rule_match p r (record { matched = false; inputs = [] })
        | some c ↦ rule_match p r (evaluate_condition p c facts)
      ]

  -- The rules up to and with the first that applies.
  abbrev pub looked_at : Facts N → List (RuleDefinition N) → List RuleMatch
  looked_at facts [] = []
  looked_at facts (r ∷ rs) =
      let rest = looked_at facts rs in explain facts r ∷ (if applies facts r then [] else rest)

  -- The loop over valid rules, started with some matches, never raises and is equivalent to a search:
  -- it selects the first rule that applies to the facts, if one does, and adds to the matches the
  -- explanations of the rules up to and with that one, or of all rules.
  pub run_rules_lem :
      (facts : Facts N) (rules : List (RuleDefinition N)) (matches : List RuleMatch)
      → AreValid rules
      → run_rules p facts rules matches
        ≡ ok (first_rule (applies facts) rules, matches ++ looked_at facts rules)
  unfolding run_rules first_rule applies
  run_rules_lem facts [] matches v = rw (append-nil matches) refl
  run_rules_lem facts (r ∷ rs) matches v =
      let later = λ (m : RuleMatch). run_rules_lem facts rs (matches ++ m ∷ []) v.1 in
      at later r.is_default refl r.condition refl
    where
      Later : Type 0
      Later =
          (m : RuleMatch)
          → run_rules p facts rs (matches ++ m ∷ [])
            ≡ ok (first_rule (applies facts) rs, (matches ++ m ∷ []) ++ looked_at facts rs)

      at :
          Later
          → (d : Bool) → r.is_default ≡ d
          → (c : Option (Condition N)) → r.condition ≡ c
          → run_rules p facts (r ∷ rs) matches
            ≡ ok (first_rule (applies facts) (r ∷ rs), matches ++ looked_at facts (r ∷ rs))
      at later true e c k = simp e
      at later false e none k = absurd (unfold validate_branch in ground (arith, v.0, e, k))
      at later false e (some c) k = elim (Bool-cases (evaluate_condition p c facts).matched) [
        | inl yes_ ↦ simp (e, k, yes_)
        | inr no_ ↦
            simp (e, k, no_)
              (later (rule_match p r (evaluate_condition p c facts))
                ∙ ap (λ (ms : List RuleMatch). ok (first_rule (applies facts) rs, ms))
                    (append_assoc matches (rule_match p r (evaluate_condition p c facts) ∷ [])
                      (looked_at facts rs)))
      ]
