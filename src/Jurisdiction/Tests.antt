-- ===== src/Jurisdiction/Tests.antt =====
-- A bundle of two jurisdictions for app/jurisdiction/rules.py.
use weiquan_agent.Prelude.{ℕ, none, some, [], ◌∷◌, All, ok, err, string_eq, ◌≡◌, refl}
use weiquan_agent.Dict.{get, put}
use weiquan_agent.Jurisdiction.{
  conflicting_alias, Platform, JurisdictionDefinition, JurisdictionBundle, check_aliases, check_all,
  validate_bundle, by_code_onto, add_aliases, aliases_onto, make_registry, resolve,
}
use weiquan_agent.Jurisdiction.Aliases.{IsFound, resolve-registered}

-- Texts are lower case and without spaces here.
abbrev python : Platform
python = record {
  strip = λ s. s;
  casefold = λ s. s;
  split = λ s. s ∷ [];
  join = λ ss. elim ss [ [] ↦ "" | ◌∷◌ s rest ↦ s ];
}

abbrev china : JurisdictionDefinition ℕ
china = record {
  code = "CN";
  name = "china";
  aliases = "prc" ∷ "national" ∷ [];
  small_claim_threshold_yuan = none;
}

abbrev beijing : JurisdictionDefinition ℕ
beijing = record {
  code = "CN-BJ";
  name = "beijing";
  aliases = "peking" ∷ [];
  small_claim_threshold_yuan = some 50000;
}

abbrev both : JurisdictionBundle ℕ
both = record { version = 1; default_code = "CN"; jurisdictions = china ∷ beijing ∷ [] }

resolve-registered_example : All (IsFound python both) (china ∷ beijing ∷ [])
unfolding validate_bundle check_all check_aliases get put
resolve-registered_example = resolve-registered python both refl

peking_is_beijing : resolve python (some "peking") (make_registry python both) ≡ ok (some beijing)
unfolding resolve by_code_onto aliases_onto add_aliases get put
peking_is_beijing = refl

-- Two jurisdictions of one name are refused.
clash :
    validate_bundle python
      (record both { jurisdictions = china ∷ record beijing { aliases = "prc" ∷ [] } ∷ [] })
    ≡ err conflicting_alias
unfolding validate_bundle check_all check_aliases get put
clash = refl
