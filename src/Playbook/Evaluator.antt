-- ===== src/Playbook/Evaluator.antt =====
-- `evaluate_condition` of app/playbooks/evaluator.py and `condition_slot_names` of schema.py.
pub mod Local
use text.Mathlib.Text.{◌==◌ as str_eq, starts_with}
use weiquan_agent.Prelude.{
  String, Bool, true, false, not, ◌&&◌, ◌||◌, Option, some, none, List, [], ◌∷◌, ◌++◌, any, all,
  contains as mentions, if◌then◌else◌, string_eq,
}
use weiquan_agent.Dict.{get}
use weiquan_agent.Playbook.{
  Platform, Value, null, boolean, integer, number, string, date, Facts, BinaryPredicate,
  MembershipPredicate, Condition, Conditions, exists, eq, neq, gte, lte, contains, in_, all_, any_,
  not_, nil, cons, value_eq, value_le,
}

pub record ConditionResult : Type 0 where
  pub matched : Bool
  pub inputs : List String

unfoldable pub dedupe_onto : List String → List String → List String
dedupe_onto seen [] = seen
dedupe_onto seen (x ∷ xs) = dedupe_onto (if mentions x seen then seen else seen ++ x ∷ []) xs

-- list(dict.fromkeys(values))
abbrev pub dedupe : List String → List String
dedupe xs = dedupe_onto [] xs

-- `expected in value` for two texts
unfoldable pub occurs_in : String → String → Bool
occurs_in expected String.[] = str_eq expected ""
occurs_in expected (String.◌∷◌ c s) = starts_with (String.◌∷◌ c s) expected || occurs_in expected s

unfoldable mutual
  pub condition_slot_names : {N : Type 0} → Condition N → List String
  condition_slot_names (exists slot) = slot ∷ []
  condition_slot_names (eq q) = q.slot ∷ []
  condition_slot_names (neq q) = q.slot ∷ []
  condition_slot_names (gte q) = q.slot ∷ []
  condition_slot_names (lte q) = q.slot ∷ []
  condition_slot_names (contains q) = q.slot ∷ []
  condition_slot_names (in_ q) = q.slot ∷ []
  condition_slot_names (all_ cs) = dedupe (children_slot_names cs)
  condition_slot_names (any_ cs) = dedupe (children_slot_names cs)
  condition_slot_names (not_ c) = condition_slot_names c

  pub children_slot_names : {N : Type 0} → Conditions N → List String
  children_slot_names nil = []
  children_slot_names (cons c cs) = condition_slot_names c ++ children_slot_names cs

abbrev pub all_matched : List ConditionResult → Bool
all_matched children = all (λ child. child.matched) children

abbrev pub any_matched : List ConditionResult → Bool
any_matched children = any (λ child. child.matched) children

module _ (p : Platform) where
  open p use {N}

  -- A missing fact is `none`; the first argument of each test is what the facts hold.
  unfoldable pub holds_exists : Option (Value N) → Bool
  holds_exists none = false
  holds_exists (some null) = false
  holds_exists (some v) = true

  unfoldable pub holds_eq : Option (Value N) → Value N → Bool
  holds_eq none expected = false
  holds_eq (some v) expected = value_eq p v expected

  unfoldable pub holds_neq : Option (Value N) → Value N → Bool
  holds_neq none expected = false
  holds_neq (some v) expected = not (value_eq p v expected)

  unfoldable pub holds_in : Option (Value N) → List (Value N) → Bool
  holds_in none members = false
  holds_in (some v) members = any (λ m. value_eq p m v) members

  unfoldable pub holds_gte : Option (Value N) → Value N → Bool
  holds_gte none expected = false
  holds_gte (some v) expected = value_le p expected v

  unfoldable pub holds_lte : Option (Value N) → Value N → Bool
  holds_lte none expected = false
  holds_lte (some v) expected = value_le p v expected

  -- Only a text contains anything, and only texts; all else is a TypeError, which is no match.
  unfoldable pub holds_contains : Option (Value N) → Value N → Bool
  holds_contains (some (string s)) (string expected) = occurs_in expected s
  holds_contains _ _ = false

  unfoldable mutual
    pub evaluate_condition : Condition N → Facts N → ConditionResult
    evaluate_condition (exists slot) facts = record {
      matched = holds_exists (get slot facts);
      inputs = slot ∷ [];
    }
    evaluate_condition (eq q) facts = record {
      matched = holds_eq (get q.slot facts) q.value;
      inputs = condition_slot_names (eq q);
    }
    evaluate_condition (neq q) facts = record {
      matched = holds_neq (get q.slot facts) q.value;
      inputs = condition_slot_names (neq q);
    }
    evaluate_condition (gte q) facts = record {
      matched = holds_gte (get q.slot facts) q.value;
      inputs = condition_slot_names (gte q);
    }
    evaluate_condition (lte q) facts = record {
      matched = holds_lte (get q.slot facts) q.value;
      inputs = condition_slot_names (lte q);
    }
    evaluate_condition (contains q) facts = record {
      matched = holds_contains (get q.slot facts) q.value;
      inputs = condition_slot_names (contains q);
    }
    evaluate_condition (in_ q) facts = record {
      matched = holds_in (get q.slot facts) q.members;
      inputs = condition_slot_names (in_ q);
    }
    evaluate_condition (all_ cs) facts = record {
      matched = all_matched (evaluate_children cs facts);
      inputs = condition_slot_names (all_ cs);
    }
    evaluate_condition (any_ cs) facts = record {
      matched = any_matched (evaluate_children cs facts);
      inputs = condition_slot_names (any_ cs);
    }
    evaluate_condition (not_ c) facts = record {
      matched = not (evaluate_condition c facts).matched;
      inputs = condition_slot_names (not_ c);
    }

    pub evaluate_children : Conditions N → Facts N → List ConditionResult
    evaluate_children nil facts = []
    evaluate_children (cons c cs) facts = evaluate_condition c facts ∷ evaluate_children cs facts
