-- ===== src/Playbook/Rules/Contract.antt =====
-- `Playbook.validate_contract` and `_validate_condition` of app/playbooks/schema.py.
use weiquan_agent.Prelude.{
  String, Bool, true, false, not, ◌&&◌, Option, some, none, List, [], ◌∷◌, string_eq, Result, ok,
  err, ◌>>=◌, ◌>>◌, require, or_raise, map, contains as mentions, count, nat_eq, all,
}
use weiquan_agent.Playbook.{
  Platform, Value, BinaryPredicate, Condition, Conditions, exists, eq, neq, gte, lte, contains, in_,
  all_, any_, not_, nil, cons, SlotDefinition, SlotType, string_slot, number_slot, integer_slot,
  date_slot, enum_slot,
}
use weiquan_agent.Playbook.Evaluator.{condition_slot_names}
use weiquan_agent.Playbook.Slots
use weiquan_agent.Playbook.Slots.{by_name, normalize_slot_value, all_slots, is_missing}
use weiquan_agent.Playbook.Rules.{
  ResultStatus, ready, RuleDefinition, EscalationDefinition, TimeLimit, Playbook, VerdictDefinition,
  verdict_by_code,
}

pub data ContractError : Type 0 where
  development_only repeated_verdict repeated_rule not_one_default default_not_last unknown_verdict :
      ContractError
  default_is_ready repeated_escalation repeated_ref unknown_ref : ContractError
  unknown_slot wrong_slot_type : ContractError
  start_slot_unknown start_slot_not_date time_limit_ref_unknown : ContractError
  bad_value : Slots.Error → ContractError

-- len(values) == len(set(values))
unfoldable pub distinct : List String → Bool
distinct [] = true
distinct (x ∷ xs) = not (mentions x xs) && distinct xs

abbrev pub is_ready : ResultStatus → Bool
is_ready ready = true
is_ready _ = false

-- rules[-1]
unfoldable pub last_rule : {N : Type 0} → List (RuleDefinition N) → Option (RuleDefinition N)
last_rule [] = none
last_rule (x ∷ []) = some x
last_rule (x ∷ (y ∷ ys)) = last_rule (y ∷ ys)

abbrev pub ends_in_default : {N : Type 0} → Option (RuleDefinition N) → Bool
ends_in_default none = false
ends_in_default (some rule) = rule.is_default

abbrev pub is_known : List VerdictDefinition → String → Bool
is_known verdicts code = not (is_missing (verdict_by_code code verdicts))

abbrev known_refs : List String → Option (List String) → Bool
known_refs basis none = true
known_refs basis (some refs) = all (λ ref. mentions ref basis) refs

-- The default rule, which is the last, may not have a verdict that is ready.
abbrev pub default_is_cautious :
    {N : Type 0} → List VerdictDefinition → Option (RuleDefinition N) → Bool
default_is_cautious verdicts none = false
default_is_cautious verdicts (some rule) = elim (verdict_by_code rule.verdict verdicts) [
  | none ↦ false
  | some v ↦ not (is_ready v.status)
]

abbrev orders : SlotType → Bool
orders number_slot = true
orders integer_slot = true
orders date_slot = true
orders _ = false

abbrev holds_text : SlotType → Bool
holds_text string_slot = true
holds_text enum_slot = true
holds_text _ = false

module _ (p : Platform) where
  open p use {N}

  abbrev Check : Type 0
  Check = Result ContractError (Unit {0})

  abbrev accepts : SlotDefinition N → Value N → Check
  accepts slot v = elim (normalize_slot_value p slot v) [ ok w ↦ ok tt | err e ↦ err (bad_value e) ]

  unfoldable pub accepts_all : SlotDefinition N → List (Value N) → Check
  accepts_all slot [] = ok tt
  accepts_all slot (v ∷ vs) = do accepts slot v; accepts_all slot vs

  abbrev names_known : List (SlotDefinition N) → List String → Check
  names_known slots names =
      require (all (λ name. not (is_missing (by_name p name slots))) names) unknown_slot

  abbrev compared : (SlotType → Bool) → List (SlotDefinition N) → BinaryPredicate N → Check
  compared fits slots q = do
    slot ← or_raise (by_name p q.slot slots) unknown_slot
    require (fits slot.slot_type) wrong_slot_type
    accepts slot q.value

  unfoldable mutual
    pub validate_condition : Condition N → List (SlotDefinition N) → Check
    validate_condition (exists slot) slots = names_known slots (slot ∷ [])
    validate_condition (eq q) slots = compared (λ t. true) slots q
    validate_condition (neq q) slots = compared (λ t. true) slots q
    validate_condition (gte q) slots = compared orders slots q
    validate_condition (lte q) slots = compared orders slots q
    validate_condition (contains q) slots = compared holds_text slots q
    validate_condition (in_ q) slots = do
      slot ← or_raise (by_name p q.slot slots) unknown_slot
      accepts_all slot q.members
    validate_condition (all_ cs) slots = do
      names_known slots (condition_slot_names (all_ cs))
      validate_children cs slots
    validate_condition (any_ cs) slots = do
      names_known slots (condition_slot_names (any_ cs))
      validate_children cs slots
    validate_condition (not_ c) slots = do
      names_known slots (condition_slot_names c)
      validate_condition c slots

    pub validate_children : Conditions N → List (SlotDefinition N) → Check
    validate_children nil slots = ok tt
    validate_children (cons c cs) slots = do validate_condition c slots; validate_children cs slots

  unfoldable pub validate_rules : List (RuleDefinition N) → List (SlotDefinition N) → Check
  validate_rules [] slots = ok tt
  validate_rules (rule ∷ rules) slots =
      let rest = validate_rules rules slots in
      elim rule.condition [ none ↦ rest | some c ↦ validate_condition c slots >> rest ]

  unfoldable pub validate_escalations :
      List (EscalationDefinition N) → List (SlotDefinition N) → Check
  validate_escalations [] slots = ok tt
  validate_escalations (item ∷ items) slots = do
    validate_condition item.condition slots
    validate_escalations items slots

  unfoldable pub validate_time_limit :
      Option TimeLimit → List String → List (SlotDefinition N) → Check
  validate_time_limit none refs slots = ok tt
  validate_time_limit (some limit) refs slots = do
    slot ← or_raise (by_name p limit.start_slot slots) start_slot_unknown
    require (elim slot.slot_type [ date_slot ↦ true | _ ↦ false ]) start_slot_not_date
    require (mentions limit.legal_ref refs) time_limit_ref_unknown

  -- What the contract says of verdicts and rules, up to the default rule's verdict.
  unfoldable pub validate_verdicts : Playbook N → Check
  validate_verdicts playbook = do
    require (not playbook.development_only) development_only
    require (distinct (map (λ v. v.code) playbook.verdicts)) repeated_verdict
    require (distinct (map (λ r. r.id) playbook.rules)) repeated_rule
    require (nat_eq (count (λ r. r.is_default) playbook.rules) 1) not_one_default
    require (ends_in_default (last_rule playbook.rules)) default_not_last
    require (all (λ r. is_known playbook.verdicts r.verdict) playbook.rules) unknown_verdict
    require (default_is_cautious playbook.verdicts (last_rule playbook.rules)) default_is_ready

  unfoldable pub validate_contract : Playbook N → Check
  validate_contract playbook = do
    validate_verdicts playbook
    validate_rules playbook.rules (all_slots p playbook.slots)
    require (distinct (map (λ item. item.id) playbook.escalation)) repeated_escalation
    validate_escalations playbook.escalation (all_slots p playbook.slots)
    require (distinct playbook.legal_basis) repeated_ref
    require (all (λ r. known_refs playbook.legal_basis r.legal_refs) playbook.rules) unknown_ref
    validate_time_limit playbook.time_limit playbook.legal_basis (all_slots p playbook.slots)
