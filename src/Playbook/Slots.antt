-- ===== src/Playbook/Slots.antt =====
-- `normalize_slot_value` and `validate_facts` of app/playbooks/schema.py.
pub mod Stable
pub mod Typed
use Prim.Native.String.{count as str_count}
use weiquan_agent.Prelude.{
  ℕ, String, Bool, true, false, not, ◌&&◌, ◌||◌, Option, some, none, List, [], ◌∷◌, ltb, nat_eq,
  contains as mentions, if◌then◌else◌, string_eq, ◌==◌, Result, ok, err, ◌>>=◌, ◌>>◌, require,
  or_raise, ◌++◌,
}
use weiquan_agent.Dict.{get, put}
use weiquan_agent.Playbook.{
  Platform, Value, null, boolean, integer, number, string, date, Facts, SlotDefinition,
  SlotCollection, SlotType, string_slot, number_slot, integer_slot, boolean_slot, date_slot,
  enum_slot,
}

pub data Error : Type 0 where
  -- ValueError, by what it names
  not_a_string is_empty not_in_enum not_a_boolean not_an_integer not_a_number not_a_date too_long :
      Error
  too_small too_large undeclared_slot : Error
  -- OverflowError of float(n)
  float_overflow : Error

abbrev pub is_missing {ℓ} : {A : Type ℓ} → Option A → Bool
is_missing none = true
is_missing (some a) = false

-- `slot.max_length or 2000`, where 0 counts as absent
abbrev pub length_limit : Option ℕ → ℕ
length_limit none = 2000
length_limit (some n) = if nat_eq n 0 then 2000 else n

module _ (p : Platform) where
  open p use {N, num_lt, to_float, is_finite, strip, iso_date}

  -- The normal form by the slot's type, before the bounds are checked.
  unfoldable pub normalize_string : Value N → Result Error (Value N)
  normalize_string (string s) = if strip s == "" then err is_empty else ok (string (strip s))
  normalize_string _ = err not_a_string

  unfoldable pub normalize_enum : List String → Value N → Result Error (Value N)
  normalize_enum choices (string s) =
      if mentions (strip s) choices then ok (string (strip s)) else err not_in_enum
  normalize_enum choices _ = err not_a_string

  unfoldable pub normalize_boolean : Value N → Result Error (Value N)
  normalize_boolean (boolean b) = ok (boolean b)
  normalize_boolean _ = err not_a_boolean

  unfoldable pub normalize_integer : Value N → Result Error (Value N)
  normalize_integer (integer n) = ok (integer n)
  normalize_integer _ = err not_an_integer

  abbrev pub finite_number : Option N → Result Error (Value N)
  finite_number none = err float_overflow
  finite_number (some x) = if is_finite x then ok (number x) else err not_a_number

  unfoldable pub normalize_number : Value N → Result Error (Value N)
  normalize_number (integer n) = finite_number (to_float n)
  normalize_number (number n) = finite_number (to_float n)
  normalize_number _ = err not_a_number

  abbrev pub iso_text : Option String → Result Error (Value N)
  iso_text none = err not_a_date
  iso_text (some s) = ok (string s)

  unfoldable pub normalize_date : Value N → Result Error (Value N)
  normalize_date (date s) = ok (string s)
  normalize_date (string s) = iso_text (iso_date (strip s))
  normalize_date _ = err not_a_date

  abbrev pub normal_form : SlotDefinition N → SlotType → Value N → Result Error (Value N)
  normal_form slot string_slot v = normalize_string v
  normal_form slot enum_slot v = normalize_enum slot.choices v
  normal_form slot boolean_slot v = normalize_boolean v
  normal_form slot integer_slot v = normalize_integer v
  normal_form slot number_slot v = normalize_number v
  normal_form slot date_slot v = normalize_date v

  unfoldable pub check_length : SlotDefinition N → Value N → Result Error (Unit {0})
  check_length slot (string s) =
      require (not (ltb (length_limit slot.max_length) (str_count s))) too_long
  check_length slot _ = ok tt

  -- numeric < slot.minimum, numeric > slot.maximum
  abbrev check_minimum : Option N → N → Result Error (Unit {0})
  check_minimum none x = ok tt
  check_minimum (some m) x = require (not (num_lt x m)) too_small

  abbrev check_maximum : Option N → N → Result Error (Unit {0})
  check_maximum none x = ok tt
  check_maximum (some m) x = require (not (num_lt m x)) too_large

  abbrev within_bounds : SlotDefinition N → Option N → Result Error (Unit {0})
  within_bounds slot none = err float_overflow
  within_bounds slot (some x) = do check_minimum slot.minimum x; check_maximum slot.maximum x

  -- The value of a number or integer slot is a number by then.
  unfoldable pub check_range : SlotDefinition N → Value N → Result Error (Unit {0})
  check_range slot (integer n) = within_bounds slot (to_float n)
  check_range slot (number n) = within_bounds slot (to_float n)
  check_range slot _ = ok tt

  unfoldable pub normalize_slot_value : SlotDefinition N → Value N → Result Error (Value N)
  normalize_slot_value slot value = do
    normalized ← normal_form slot slot.slot_type value
    check_length slot normalized
    check_range slot normalized
    ok normalized

  abbrev pub all_slots : SlotCollection N → List (SlotDefinition N)
  all_slots slots = slots.required ++ slots.optional

  -- slots.by_name.get(name), where a later slot of the same name takes the place of an earlier one
  unfoldable pub by_name : String → List (SlotDefinition N) → Option (SlotDefinition N)
  by_name name [] = none
  by_name name (slot ∷ slots) =
      let later = by_name name slots in
      elim later [ some s ↦ some s | none ↦ if slot.name == name then some slot else none ]

  unfoldable pub any_undeclared : List (SlotDefinition N) → Facts N → Bool
  any_undeclared slots [] = false
  any_undeclared slots ((name, v) ∷ facts) =
      is_missing (by_name name slots) || any_undeclared slots facts

  abbrev pub is_null : Value N → Bool
  is_null null = true
  is_null _ = false

  unfoldable pub normalize_facts :
      List (SlotDefinition N) → Facts N → Facts N → Result Error (Facts N)
  normalize_facts slots [] normalized = ok normalized
  normalize_facts slots ((name, v) ∷ facts) normalized =
      let skipped = normalize_facts slots facts normalized in
      let kept : Result Error (Facts N) = or_raise (by_name name slots) undeclared_slot >>= λ slot.
      normalize_slot_value slot v >>= λ w. normalize_facts slots facts (put name w normalized) in
      if is_null v then skipped else kept

  unfoldable pub add_defaults : List (SlotDefinition N) → Facts N → Result Error (Facts N)
  add_defaults [] normalized = ok normalized
  add_defaults (slot ∷ slots) normalized =
      let given = add_defaults slots normalized in
      let defaulted : Result Error (Facts N) = normalize_slot_value slot slot.default >>= λ w.
      add_defaults slots (put slot.name w normalized) in
      if is_missing (get slot.name normalized) && not (is_null slot.default)
      then defaulted
      else given

  unfoldable pub missing_slots : List (SlotDefinition N) → Facts N → List String
  missing_slots [] facts = []
  missing_slots (slot ∷ slots) facts =
      let rest = missing_slots slots facts in
      if is_missing (get slot.name facts) then slot.name ∷ rest else rest

  pub record SlotValidationResult : Type 0 where
    pub facts : Facts N
    pub missing_required : List String

  unfoldable pub validate_facts :
      SlotCollection N → Facts N → Bool → Result Error SlotValidationResult
  validate_facts slots facts apply_defaults = do
    require (not (any_undeclared (all_slots slots) facts)) undeclared_slot
    normalized ← normalize_facts (all_slots slots) facts []
    completed ← (if apply_defaults then add_defaults slots.optional normalized else ok normalized)
    ok (record { facts = completed; missing_required = missing_slots slots.required completed })
