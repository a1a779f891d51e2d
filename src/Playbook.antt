-- ===== src/Playbook.antt =====
-- The data of app/playbooks/schema.py: values of facts, slots and conditions. Python's numbers, its
-- text stripping and its date parsing are a parameter, `Platform`.
pub mod Evaluator
pub mod Slots
pub mod Rules
mod Tests
use Prim.Native.Nat.{Ordering}
use Prim.Native.String.{compare as str_compare}
use text.Mathlib.Text.{◌==◌ as str_eq}
use weiquan_agent.Prelude.{
  ℕ, String, Bool, true, false, not, Option, some, none, List, if◌then◌else◌,
}
use weiquan_agent.Dict.{Dict}

-- What the code takes from Python.
pub record Platform : Type 1 where
  -- The values of int, bool and float objects, which Python compares by value.
  pub N : Type 0
  pub num_eq : N → N → Bool
  pub num_le : N → N → Bool
  pub num_lt : N → N → Bool
  pub of_bool : Bool → N
  -- float(n); none is an OverflowError
  pub to_float : N → Option N
  pub is_finite : N → Bool
  -- str.strip
  pub strip : String → String
  -- date.fromisoformat(s).isoformat(); none is a ValueError
  pub iso_date : String → Option String

-- A value of a fact or of a playbook file. A date object is kept as its ISO text.
pub data Value (N : Type 0) : Type 0 where
  null : Value N
  boolean : Bool → Value N
  integer : N → Value N
  number : N → Value N
  string : String → Value N
  date : String → Value N

pub data SlotType : Type 0 where
  string_slot number_slot integer_slot boolean_slot date_slot enum_slot : SlotType

pub record SlotDefinition (N : Type 0) : Type 0 where
  pub name : String
  pub slot_type : SlotType
  pub choices : List String
  pub minimum : Option N
  pub maximum : Option N
  pub max_length : Option ℕ
  pub default : Value N

pub record SlotCollection (N : Type 0) : Type 0 where
  pub required : List (SlotDefinition N)
  pub optional : List (SlotDefinition N)

abbrev pub Facts : Type 0 → Type 0
Facts N = Dict String (Value N)

pub record BinaryPredicate (N : Type 0) : Type 0 where
  pub slot : String
  pub value : Value N

pub record MembershipPredicate (N : Type 0) : Type 0 where
  pub slot : String
  pub members : List (Value N)

-- A node has exactly one operator, which its validator ensures.
mutual
  pub data Condition (N : Type 0) : Type 0 where
    exists : String → Condition N
    eq neq gte lte contains : BinaryPredicate N → Condition N
    in_ : MembershipPredicate N → Condition N
    all_ any_ : Conditions N → Condition N
    not_ : Condition N → Condition N

  pub data Conditions (N : Type 0) : Type 0 where
    nil : Conditions N
    cons : Condition N → Conditions N → Conditions N

abbrev string_le : String → String → Bool
string_le s t = elim (str_compare s t) [ Ordering.gt ↦ false | _ ↦ true ]

module _ (p : Platform) where
  open p use {N, num_eq, num_le, of_bool}

  abbrev pub numeric : Value N → Option N
  numeric (boolean b) = some (of_bool b)
  numeric (integer n) = some n
  numeric (number n) = some n
  numeric _ = none

  abbrev both : (N → N → Bool) → Option N → Option N → Bool
  both f (some a) (some b) = f a b
  both f _ _ = false

  -- left == right
  unfoldable pub value_eq : Value N → Value N → Bool
  value_eq null null = true
  value_eq (string s) (string t) = str_eq s t
  value_eq (date s) (date t) = str_eq s t
  value_eq a b = both num_eq (numeric a) (numeric b)

  -- left <= right; a TypeError counts as no match
  unfoldable pub value_le : Value N → Value N → Bool
  value_le (string s) (string t) = string_le s t
  value_le (date s) (date t) = string_le s t
  value_le a b = both num_le (numeric a) (numeric b)
