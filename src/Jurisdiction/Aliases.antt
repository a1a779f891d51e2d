-- ===== src/Jurisdiction/Aliases.antt =====
-- Names in a bundle of app/jurisdiction/schema.py and in the registry of app/jurisdiction/rules.py.
use weiquan_agent.Prelude.{
  String, true, false, some, List, [], ◌∷◌, All, contains, string_eq, ◌==◌, ==_refl, ◌≡◌, refl, sym,
  ◌∙◌, ok, arith, Bool-cases, Result-cases, inl, inr,
}
use weiquan_agent.Dict.{Dict, get, put}
use weiquan_agent.Dict.Laws.{get-put}
use weiquan_agent.Jurisdiction.{
  Platform, JurisdictionDefinition, JurisdictionBundle, normalize_jurisdiction_alias, all_distinct,
  conflicts, names_of, check_aliases, check_all, codes, validate_bundle, by_code_onto, add_aliases,
  aliases_onto, make_registry, resolve,
}

-- A dict that still has what another had.
abbrev Extends : Dict String String → Dict String String → Type 0
Extends d d' = (a c : String) → get a d ≡ some c → get a d' ≡ some c

put-Extends :
    (name code : String) (d : Dict String String)
    → conflicts (get name d) code ≡ false
    → Extends d (put name code d)
put-Extends name code d free a c there = rw (get-put name a code d) (elim (Bool-cases (name == a)) [
  | inl same ↦
      let is_a : name ≡ a = (string_eq.agrees_iff name a).0 same in
      rw same (ground (arith, rw (is_a, there) at free, string_eq.agrees_iff c code))
  | inr other ↦ rw other there
])

-- What an accepted list of names leaves.
record Added (code : String) (names : List String) (d d' : Dict String String) : Type 0 where
  pub same : add_aliases code names d ≡ d'
  pub extends : Extends d d'
  pub found : (a : String) → contains a names ≡ true → get a d' ≡ some code

check_aliases-Added :
    (code : String) (names : List String) (d d' : Dict String String)
    → check_aliases code names d ≡ ok d'
    → Added code names d d'
unfolding check_aliases add_aliases
check_aliases-Added code [] d d' h =
    let same : d ≡ d' = ground (arith, h) in
    record { same = same; extends = λ a c there. rw (sym same) there; found = λ a is_in. absurd cc }
check_aliases-Added code (name ∷ names) d d' h = elim (Bool-cases (conflicts (get name d) code)) [
  | inl clash ↦ absurd (ground (arith, h, clash))
  | inr free ↦
      let rest = check_aliases-Added code names (put name code d) d' (rw free at h) in
      record {
        same = rest.same;
        extends = λ a c there. rest.extends a c (put-Extends name code d free a c there);
        found = λ a is_in. elim (Bool-cases (name == a)) [
          | inl same ↦ rest.extends a code (rw (get-put name a code d, same) refl)
          | inr other ↦ rest.found a (ground (arith, is_in, other))
        ];
      }
]

module _ {Yuan : Type 0} (p : Platform) where
  -- Each name of an item stands for its code.
  abbrev Names : Dict String String → JurisdictionDefinition Yuan → Type 0
  Names d item = (a : String) → contains a (names_of p item) ≡ true → get a d ≡ some item.code

  check_all-Names :
      (items : List (JurisdictionDefinition Yuan)) (d d' : Dict String String)
      → check_all p items d ≡ ok d'
      → (aliases_onto p d items ≡ d') × Extends d d' × All (Names d') items
  unfolding check_all aliases_onto
  check_all-Names [] d d' h =
      let same : d ≡ d' = ground (arith, h) in (same, λ a c there. rw (sym same) there, tt)
  check_all-Names (item ∷ items) d d' h =
      elim (Result-cases (check_aliases item.code (names_of p item) d)) [
        | inr (e, bad) ↦ absurd (ground (arith, h, bad))
        | inl (d1, good) ↦
            let here = check_aliases-Added item.code (names_of p item) d d1 good in
            let rest = check_all-Names items d1 d' (rw good at h) in
            (
              rw here.same rest.0,
              λ a c there. rest.1 a c (here.extends a c there),
              (λ a is_in. rest.1 a item.code (here.found a is_in), rest.2),
            )
      ]

  get-by_code_onto :
      (c : String) (items : List (JurisdictionDefinition Yuan))
      (d : Dict String (JurisdictionDefinition Yuan))
      → contains c (codes p items) ≡ false
      → get c (by_code_onto p d items) ≡ get c d
  unfolding by_code_onto
  get-by_code_onto c [] d out = refl
  get-by_code_onto c (item ∷ items) d out =
      ground
        (arith, get-by_code_onto c items (put item.code item d), get-put item.code c item d, out)

  by_code_onto-finds :
      (items : List (JurisdictionDefinition Yuan)) (d : Dict String (JurisdictionDefinition Yuan))
      → all_distinct (codes p items) ≡ true
      → All (λ item. get item.code (by_code_onto p d items) ≡ some item) items
  unfolding by_code_onto
  by_code_onto-finds [] d h = tt
  by_code_onto-finds (item ∷ items) d h = (
    get-by_code_onto item.code items (put item.code item d) (ground (arith, h))
        ∙ (rw (get-put item.code item.code item d, ==_refl item.code) refl),
    by_code_onto-finds items (put item.code item d) (ground (arith, h)),
  )

  -- How the registry answers to a name of an item.
  abbrev pub IsFound : JurisdictionBundle Yuan → JurisdictionDefinition Yuan → Type 0
  IsFound bundle item =
      (value : String)
      → contains (normalize_jurisdiction_alias p value) (names_of p item) ≡ true
      → (normalize_jurisdiction_alias p value == "") ≡ false
      → (item.code == "") ≡ false
      → resolve p (some value) (make_registry p bundle) ≡ ok (some item)

  resolve-IsFound :
      (bundle : JurisdictionBundle Yuan) (d : Dict String String)
      (items : List (JurisdictionDefinition Yuan))
      → aliases_onto p [] bundle.jurisdictions ≡ d
      → All (Names d) items
      → All (λ item. get item.code (by_code_onto p [] bundle.jurisdictions) ≡ some item) items
      → All (IsFound bundle) items
  unfolding resolve
  resolve-IsFound bundle d [] same names here = tt
  resolve-IsFound bundle d (item ∷ items) same names here = (
    λ value is_in some_text coded.
        rw
          (
            some_text,
            same,
            names.0 (normalize_jurisdiction_alias p value) is_in,
            coded,
            here.0,
            resolve,
          )
          refl,
    resolve-IsFound bundle d items same names.1 here.1,
  )

  -- In a valid bundle names are unambiguous: for each jurisdiction, the registry resolves every
  -- text that normalizes to its code, its name or one of its aliases, and not to nothing, to this
  -- very jurisdiction, if its code is not empty.
  pub resolve-registered :
      (bundle : JurisdictionBundle Yuan)
      → validate_bundle p bundle ≡ ok tt
      → All (IsFound bundle) bundle.jurisdictions
  unfolding validate_bundle
  resolve-registered bundle valid = elim (Result-cases (check_all p bundle.jurisdictions [])) [
    | inr (e, bad) ↦ absurd (ground (arith, valid, bad))
    | inl (d, good) ↦
        let (same, extends, names) = check_all-Names bundle.jurisdictions [] d good in
        resolve-IsFound bundle d bundle.jurisdictions same names
          (by_code_onto-finds bundle.jurisdictions [] (ground (arith, valid)))
  ]
