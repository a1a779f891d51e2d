-- ===== src/Jurisdiction.antt =====
-- The registry of jurisdictions: app/jurisdiction/schema.py and `JurisdictionRegistry` of
-- app/jurisdiction/rules.py.

pub mod Aliases
mod Tests
use weiquan_agent.Prelude.{
  ℕ, String, Bool, true, false, not, Option, none, some, List, [], ◌∷◌, map, contains,
  if◌then◌else◌, string_eq, ◌==◌, Result, ok, ◌>>=◌, ◌>>◌, require, or_raise,
}
use weiquan_agent.Dict.{Dict, get, put}

pub data Error : Type 0 where
  -- ValueError of the validator; KeyError of a missing default
  duplicate_code unknown_default conflicting_alias key_error : Error

-- What normalize_jurisdiction_alias asks of Python's strings.
pub record Platform : Type 0 where
  pub strip : String → String
  pub casefold : String → String
  pub split : String → List String
  -- "".join
  pub join : List String → String

-- `Yuan` stands for Python's float.
module _ (Yuan : Type 0) where
  pub record JurisdictionDefinition : Type 0 where
    pub code : String
    pub name : String
    pub aliases : List String
    pub small_claim_threshold_yuan : Option Yuan

  pub record JurisdictionBundle : Type 0 where
    pub version : ℕ
    pub default_code : String
    pub jurisdictions : List JurisdictionDefinition

module _ (p : Platform) where
  abbrev pub normalize_jurisdiction_alias : String → String
  normalize_jurisdiction_alias value = p.join (p.split (p.casefold (p.strip value)))

-- len(codes) != len(set(codes)), negated
abbrev pub all_distinct : List String → Bool
all_distinct [] = true
all_distinct (x ∷ xs) = if contains x xs then false else all_distinct xs

-- existing is not None and existing != code
abbrev pub conflicts : Option String → String → Bool
conflicts none code = false
conflicts (some existing) code = not (existing == code)

-- The loop of the validator over the aliases of one jurisdiction.
unfoldable pub check_aliases :
    String → List String → Dict String String → Result Error (Dict String String)
check_aliases code [] aliases = ok aliases
check_aliases code (name ∷ names) aliases = do
  require (not (conflicts (get name aliases) code)) conflicting_alias
  check_aliases code names (put name code aliases)

unfoldable pub add_aliases : String → List String → Dict String String → Dict String String
add_aliases code [] aliases = aliases
add_aliases code (name ∷ names) aliases = add_aliases code names (put name code aliases)

abbrev pub or_empty : Option String → String
or_empty none = ""
or_empty (some s) = s

module _ (Yuan : Type 0) where
  pub record Registry : Type 0 where
    pub bundle : JurisdictionBundle Yuan
    pub by_code : Dict String (JurisdictionDefinition Yuan)
    pub aliases : Dict String String

module _ {Yuan : Type 0} (p : Platform) where
  -- [item.code, item.name, *item.aliases], normalized
  abbrev pub names_of : JurisdictionDefinition Yuan → List String
  names_of item = map (normalize_jurisdiction_alias p) (item.code ∷ item.name ∷ item.aliases)

  unfoldable pub check_all :
      List (JurisdictionDefinition Yuan) → Dict String String → Result Error (Dict String String)
  check_all [] aliases = ok aliases
  check_all (item ∷ items) aliases = do
    aliases' ← check_aliases item.code (names_of item) aliases
    check_all items aliases'

  abbrev pub codes : List (JurisdictionDefinition Yuan) → List String
  codes items = map (λ item. item.code) items

  unfoldable pub validate_bundle : JurisdictionBundle Yuan → Result Error (Unit {0})
  validate_bundle bundle = do
    require (all_distinct (codes bundle.jurisdictions)) duplicate_code
    require (contains bundle.default_code (codes bundle.jurisdictions)) unknown_default
    aliases ← check_all bundle.jurisdictions []
    ok tt

  -- JurisdictionRegistry.__init__
  unfoldable pub by_code_onto :
      Dict String (JurisdictionDefinition Yuan)
      → List (JurisdictionDefinition Yuan)
      → Dict String (JurisdictionDefinition Yuan)
  by_code_onto d [] = d
  by_code_onto d (item ∷ items) = by_code_onto (put item.code item d) items

  unfoldable pub aliases_onto :
      Dict String String → List (JurisdictionDefinition Yuan) → Dict String String
  aliases_onto aliases [] = aliases
  aliases_onto aliases (item ∷ items) =
      aliases_onto (add_aliases item.code (names_of item) aliases) items

  abbrev pub make_registry : JurisdictionBundle Yuan → Registry Yuan
  make_registry bundle = record {
    bundle = bundle;
    by_code = by_code_onto [] bundle.jurisdictions;
    aliases = aliases_onto [] bundle.jurisdictions;
  }

  unfoldable pub resolve :
      Option String → Registry Yuan → Result Error (Option (JurisdictionDefinition Yuan))
  resolve value registry =
      let normalized = normalize_jurisdiction_alias p (or_empty value) in
      if normalized == ""
      then (or_raise (get registry.bundle.default_code registry.by_code) key_error >>= λ item.
          ok (some item))
      else elim (get normalized registry.aliases) [
        | none ↦ ok none
        | some code ↦ ok (if code == "" then none else get code registry.by_code)
      ]
