-- ===== src/Playbook/Rules.antt =====
-- Verdicts, rules and the rest of a playbook in app/playbooks/schema.py, and the evaluation of
-- app/playbooks/evaluator.py.
pub mod Contract
pub mod Verdicts
pub mod Outcome
use weiquan_agent.Prelude.{
  String, Bool, true, false, not, ◌&&◌, Option, some, none, List, [], ◌∷◌, ◌++◌, if◌then◌else◌,
  string_eq, ◌==◌, Result, ok, err, ◌>>=◌, ◌>>◌, require, or_raise, map,
}
use weiquan_agent.Playbook.{Platform, Facts, Condition, SlotCollection}
use weiquan_agent.Playbook.Evaluator.{ConditionResult, evaluate_condition}
use weiquan_agent.Playbook.Slots.{validate_facts}
use weiquan_agent.Playbook.Slots

pub data ResultStatus : Type 0 where
  need_more_facts ready escalate : ResultStatus

pub record VerdictDefinition : Type 0 where
  pub code : String
  pub label : String
  pub status : ResultStatus

pub record RuleDefinition (N : Type 0) : Type 0 where
  pub id : String
  pub condition : Option (Condition N)
  pub is_default : Bool
  pub verdict : String
  pub key_point : String
  pub legal_refs : Option (List String)

pub record EscalationDefinition (N : Type 0) : Type 0 where
  pub id : String
  pub condition : Condition N
  pub message : String

pub record TimeLimit : Type 0 where
  pub start_slot : String
  pub legal_ref : String

pub record Playbook (N : Type 0) : Type 0 where
  pub development_only : Bool
  pub slots : SlotCollection N
  pub verdicts : List VerdictDefinition
  -- the `ref` of each entry of legal_basis
  pub legal_basis : List String
  pub rules : List (RuleDefinition N)
  pub escalation : List (EscalationDefinition N)
  pub time_limit : Option TimeLimit

pub data Error : Type 0 where
  -- raised by validate_facts
  facts_error : Slots.Error → Error
  -- ValueError
  required_slots_missing default_has_condition condition_missing no_default_rule : Error
  -- KeyError
  unknown_verdict unknown_rule : Error

abbrev pub lift_error {ℓ} : {A : Type ℓ} → Result Slots.Error A → Result Error A
lift_error (ok a) = ok a
lift_error (err e) = err (facts_error e)

abbrev pub is_empty {ℓ} : {A : Type ℓ} → List A → Bool
is_empty [] = true
is_empty (x ∷ xs) = false

abbrev has_condition {ℓ} : {A : Type ℓ} → Option A → Bool
has_condition none = false
has_condition (some c) = true

-- RuleDefinition.validate_branch
unfoldable pub validate_branch : {N : Type 0} → RuleDefinition N → Result Error (Unit {0})
validate_branch rule = do
  require (not (rule.is_default && has_condition rule.condition)) default_has_condition
  require (not (not rule.is_default && not (has_condition rule.condition))) condition_missing

-- playbook.verdict_by_code[code], where a later verdict of the same code takes the place of an
-- earlier one
unfoldable pub verdict_by_code : String → List VerdictDefinition → Option VerdictDefinition
verdict_by_code code [] = none
verdict_by_code code (v ∷ vs) =
    let later = verdict_by_code code vs in
    elim later [ some w ↦ some w | none ↦ if v.code == code then some v else none ]

-- Playbook.legal_refs_for_rule
unfoldable pub legal_refs_for_rule :
    {N : Type 0} → List String → String → List (RuleDefinition N) → Result Error (List String)
legal_refs_for_rule basis rule_id [] = err unknown_rule
legal_refs_for_rule basis rule_id (rule ∷ rules) =
    if rule.id == rule_id
    then (elim rule.legal_refs [ none ↦ ok basis | some refs ↦ ok refs ])
    else legal_refs_for_rule basis rule_id rules

pub record RuleMatch : Type 0 where
  pub rule_id : String
  pub matched : Bool
  pub inputs : List String
  pub verdict : Option String
  pub key_point : Option String

module _ (p : Platform) where
  open p use {N}

  unfoldable pub rule_match : RuleDefinition N → ConditionResult → RuleMatch
  rule_match rule result = record {
    rule_id = rule.id;
    matched = result.matched;
    inputs = result.inputs;
    verdict = if result.matched then some rule.verdict else none;
    key_point = if result.matched then some rule.key_point else none;
  }

  abbrev pub Loop : Type 0
  Loop = Result Error (Option (RuleDefinition N) × List RuleMatch)

  -- The loop of `evaluate_playbook`, which stops at the first rule that matches.
  unfoldable pub run_rules : Facts N → List (RuleDefinition N) → List RuleMatch → Loop
  run_rules facts [] matches = ok (none, matches)
  run_rules facts (rule ∷ rules) matches =
      let by_default : Loop =
        ok (some rule, matches ++ rule_match rule (record { matched = true; inputs = [] }) ∷ []) in
      let by_condition : Loop = elim rule.condition [
        | none ↦ err condition_missing
        | some c ↦
            let result = evaluate_condition p c facts in
            let later = run_rules facts rules (matches ++ rule_match rule result ∷ []) in
            if result.matched then ok (some rule, matches ++ rule_match rule result ∷ []) else later
      ] in
      if rule.is_default then by_default else by_condition

  pub record EvaluationResult : Type 0 where
    pub verdict : String
    pub verdict_label : String
    pub status : ResultStatus
    pub selected_rule_id : String
    pub key_point : String
    pub facts : Facts N
    pub matches : List RuleMatch

  unfoldable pub evaluate_playbook : Playbook N → Facts N → Result Error EvaluationResult
  evaluate_playbook playbook facts = do
    validated ← lift_error (validate_facts p playbook.slots facts true)
    require (is_empty validated.missing_required) required_slots_missing
    outcome ← run_rules validated.facts playbook.rules []
    selected ← or_raise outcome.0 no_default_rule
    verdict ← or_raise (verdict_by_code selected.verdict playbook.verdicts) unknown_verdict
    ok (record {
      verdict = verdict.code;
      verdict_label = verdict.label;
      status = verdict.status;
      selected_rule_id = selected.id;
      key_point = selected.key_point;
      facts = validated.facts;
      matches = outcome.1;
    })

  unfoldable pub matching_escalations : List (EscalationDefinition N) → Facts N → List String
  matching_escalations [] facts = []
  matching_escalations (item ∷ items) facts =
      let rest = matching_escalations items facts in
      if (evaluate_condition p item.condition facts).matched then item.message ∷ rest else rest
