-- ===== src/Playbook/Tests.antt =====
-- One playbook with two slots and two rules, evaluated on facts, over Python's numbers cut down to
-- the natural ones.
use Prim.Native.String.{count as str_count}
use weiquan_agent.Prelude.{
  ℕ, true, false, none, some, [], ◌∷◌, ltb, leb, nat_eq, if◌then◌else◌, ◌≡◌, refl, ok, arith,
  string_eq,
}
use weiquan_agent.Dict.{get, put}
use weiquan_agent.Playbook.{
  Platform, null, boolean, integer, string, date, SlotDefinition, integer_slot, boolean_slot,
  date_slot, Facts, Condition, gte, eq, all_, cons, nil, value_eq, value_le,
}
use weiquan_agent.Playbook.Evaluator.{
  evaluate_condition, evaluate_children, condition_slot_names, children_slot_names, dedupe_onto,
  holds_eq, holds_gte,
}
use weiquan_agent.Playbook.Evaluator.Local.{evaluate_condition-local}
use weiquan_agent.Playbook.Slots.{
  validate_facts, SlotValidationResult, any_undeclared, by_name, normalize_facts, add_defaults,
  missing_slots, normalize_slot_value, normalize_integer, normalize_boolean, normalize_date,
  check_length, check_range, all_slots,
}
use weiquan_agent.Playbook.Slots.Stable.{PlatformLaws, normalize_slot_value-stable}
use weiquan_agent.Playbook.Slots.Typed.{IsNormal, validate_facts-IsNormal}
use weiquan_agent.Playbook.Rules.{
  ready, need_more_facts, RuleDefinition, Playbook, rule_match, run_rules, validate_branch,
  verdict_by_code, EvaluationResult, evaluate_playbook,
}
use weiquan_agent.Playbook.Rules.Contract.{validate_verdicts, distinct, last_rule}
use weiquan_agent.Playbook.Rules.Verdicts.{AreValid, first_rule, applies, looked_at, run_rules_lem}
use weiquan_agent.Playbook.Rules.Outcome.{
  IsOutcome, evaluate_playbook-IsOutcome, evaluate_playbook-total, evaluate_playbook-ready,
}

abbrev python : Platform
python = record {
  N = ℕ;
  num_eq = nat_eq;
  num_le = leb;
  num_lt = ltb;
  of_bool = λ b. if b then 1 else 0;
  to_float = λ n. some n;
  is_finite = λ n. true;
  strip = λ s. s;
  iso_date = λ s. if nat_eq (str_count s) 10 then some s else none;
}

python-PlatformLaws : PlatformLaws python
python-PlatformLaws = record {
  strip_strip = λ s. refl;
  float_float = λ n x h. refl;
  iso_again = λ s t h. ground arith;
}

abbrev late_days : SlotDefinition ℕ
late_days = record {
  name = "late_days";
  slot_type = integer_slot;
  choices = [];
  minimum = some 0;
  maximum = some 400;
  max_length = none;
  default = null;
}

abbrev has_contract : SlotDefinition ℕ
has_contract = record {
  name = "has_contract";
  slot_type = boolean_slot;
  choices = [];
  minimum = none;
  maximum = none;
  max_length = none;
  default = boolean true;
}

abbrev long_delay : Condition ℕ
long_delay = all_ (
    cons (gte (record { slot = "late_days"; value = integer 30 }))
      (cons (eq (record { slot = "has_contract"; value = boolean true })) nil))

abbrev claim_rule : RuleDefinition ℕ
claim_rule = record {
  id = "claim";
  condition = some long_delay;
  is_default = false;
  verdict = "can_claim";
  key_point = "the delay is long";
  legal_refs = none;
}

abbrev default_rule : RuleDefinition ℕ
default_rule = record {
  id = "default";
  condition = none;
  is_default = true;
  verdict = "unclear";
  key_point = "more facts are needed";
  legal_refs = none;
}

abbrev rent : Playbook ℕ
rent = record {
  development_only = false;
  slots = record { required = late_days ∷ []; optional = has_contract ∷ [] };
  verdicts =
      record { code = "can_claim"; label = "claim"; status = ready }
      ∷ record { code = "unclear"; label = "unclear"; status = need_more_facts }
      ∷ [];
  legal_basis = [];
  rules = claim_rule ∷ default_rule ∷ [];
  escalation = [];
  time_limit = none;
}

abbrev given : Facts ℕ
given = ("late_days", integer 45) ∷ []

abbrev complete : Facts ℕ
complete = ("late_days", integer 45) ∷ ("has_contract", boolean true) ∷ []

abbrev validated : SlotValidationResult python
validated = record { facts = complete; missing_required = [] }

given_validates : validate_facts python rent.slots given true ≡ ok validated
unfolding validate_facts any_undeclared by_name normalize_facts add_defaults missing_slots
    normalize_slot_value normalize_integer normalize_boolean check_length check_range get put
given_validates = refl

abbrev claim : EvaluationResult python
claim = record {
  verdict = "can_claim";
  verdict_label = "claim";
  status = ready;
  selected_rule_id = "claim";
  key_point = "the delay is long";
  facts = complete;
  matches =
      record {
        rule_id = "claim";
        matched = true;
        inputs = "late_days" ∷ "has_contract" ∷ [];
        verdict = some "can_claim";
        key_point = some "the delay is long";
      }
      ∷ [];
}

given_claims : evaluate_playbook python rent given ≡ ok claim
unfolding validate_facts any_undeclared by_name normalize_facts add_defaults missing_slots
    normalize_slot_value normalize_integer normalize_boolean check_length check_range get put
    evaluate_playbook run_rules rule_match evaluate_condition evaluate_children condition_slot_names
    children_slot_names dedupe_onto value_eq value_le verdict_by_code holds_gte holds_eq
given_claims = refl

rules_valid : AreValid python rent.rules
unfolding validate_branch
rules_valid = (refl, (refl, tt))

contract_holds : validate_verdicts python rent ≡ ok tt
unfolding validate_verdicts distinct last_rule verdict_by_code
contract_holds = refl

run_rules_lem_example :
    run_rules python validated.facts rent.rules []
    ≡ ok (
      first_rule (applies python validated.facts) rent.rules,
      looked_at python validated.facts rent.rules,
    )
run_rules_lem_example = run_rules_lem python validated.facts rent.rules [] rules_valid

evaluate_playbook-IsOutcome_example : IsOutcome python rent given claim
evaluate_playbook-IsOutcome_example =
    evaluate_playbook-IsOutcome python rent rules_valid given claim given_claims

evaluate_playbook-total_example :
    (result : EvaluationResult python) × (evaluate_playbook python rent given ≡ ok result)
evaluate_playbook-total_example =
    evaluate_playbook-total python rent rules_valid given validated contract_holds given_validates
      refl

evaluate_playbook-ready_example :
    (o : IsOutcome python rent given claim) × (c : Condition ℕ) × (o.rule.is_default ≡ false)
    × (o.rule.condition ≡ some c)
    × ((evaluate_condition python c o.validated.facts).matched ≡ true)
evaluate_playbook-ready_example =
    evaluate_playbook-ready python rent rules_valid given claim contract_holds given_claims refl

abbrev with_rent : Facts ℕ
with_rent = ("rent", integer 900) ∷ complete

agree :
    (get "late_days" complete ≡ get "late_days" with_rent)
    × ((get "has_contract" complete ≡ get "has_contract" with_rent) × Unit {0})
unfolding get
agree = (refl, (refl, tt))

evaluate_condition-local_example :
    evaluate_condition python long_delay complete ≡ evaluate_condition python long_delay with_rent
unfolding evaluate_condition condition_slot_names children_slot_names dedupe_onto
evaluate_condition-local_example =
    evaluate_condition-local python complete with_rent long_delay agree

abbrev due : SlotDefinition ℕ
due = record {
  name = "due";
  slot_type = date_slot;
  choices = [];
  minimum = none;
  maximum = none;
  max_length = none;
  default = null;
}

due_normalizes : normalize_slot_value python due (date "2026-03-01") ≡ ok (string "2026-03-01")
unfolding normalize_slot_value normalize_date check_length check_range
due_normalizes = refl

normalize_slot_value-stable_example :
    normalize_slot_value python due (string "2026-03-01") ≡ ok (string "2026-03-01")
normalize_slot_value-stable_example =
    normalize_slot_value-stable python python-PlatformLaws due (date "2026-03-01")
      (string "2026-03-01") refl due_normalizes

declared : by_name python "has_contract" (all_slots python rent.slots) ≡ some has_contract
unfolding by_name
declared = refl

validate_facts-IsNormal_example :
    IsNormal python python-PlatformLaws (all_slots python rent.slots) complete
validate_facts-IsNormal_example =
    validate_facts-IsNormal python python-PlatformLaws rent.slots given true validated (tt, tt)
      ((declared, tt), tt) given_validates
