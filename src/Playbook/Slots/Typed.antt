-- ===== src/Playbook/Slots/Typed.antt =====
-- The facts that `validate_facts` of app/playbooks/schema.py hands to the rules.
use weiquan_agent.Prelude.{
  String, Bool, true, false, not, ◌&&◌, some, List, [], ◌∷◌, ◌≡◌, ap, ◌∙◌, sym, if◌then◌else◌,
  string_eq, ◌==◌, ok, ◌>>=◌, Bool-cases, Option-cases, Result-cases, inl, inr, arith, All, subst,
}
use weiquan_agent.Dict.{get, put}
use weiquan_agent.Dict.Laws.{get-put}
use weiquan_agent.Playbook.{Platform, Value, Facts, SlotDefinition, SlotCollection}
use weiquan_agent.Playbook.Slots.{
  normalize_slot_value, by_name, normalize_facts, add_defaults, is_null, is_missing, validate_facts,
  SlotValidationResult, all_slots, missing_slots, any_undeclared,
}
use weiquan_agent.Playbook.Slots.Stable.{PlatformLaws, IsIsoDate, normalize_slot_value-stable}

module _ (p : Platform) (laws : PlatformLaws p) (slots : List (SlotDefinition p.N)) where
  open p use {N}

  -- Every fact has a declared slot, and is in that slot's normal form.
  pub record IsNormal (facts : Facts N) : Type 0 where
    pub typed :
        (name : String) (w : Value N)
        → get name facts ≡ some w
        → (slot : SlotDefinition N) × (by_name p name slots ≡ some slot)
          × (normalize_slot_value p slot w ≡ ok w)

  put-IsNormal :
      (name : String) (slot : SlotDefinition N) (v w : Value N) (facts : Facts N)
      → by_name p name slots ≡ some slot
      → IsIsoDate p v
      → normalize_slot_value p slot v ≡ ok w
      → IsNormal facts
      → IsNormal (put name w facts)
  put-IsNormal name slot v w facts found i made n = record {
    typed = λ other x h. elim (Bool-cases (name == other)) [
      | inl same ↦
          let e : name ≡ other = (string_eq.agrees_iff name other).0 same in
          let is_w : w ≡ x = ground (arith, get-put name other w facts, same, h) in
          (
            slot,
            ap (λ (k : String). by_name p k slots) (sym e) ∙ found,
            subst (λ y. normalize_slot_value p slot y ≡ ok y) is_w
                (normalize_slot_value-stable p laws slot v w i made),
          )
      | inr apart ↦ n.typed other x (ground (arith, get-put name other w facts, apart, h))
    ];
  }

  normalize_facts-IsNormal :
      (given done result : Facts N)
      → All (λ entry. IsIsoDate p (entry.1)) given
      → IsNormal done
      → normalize_facts p slots given done ≡ ok result
      → IsNormal result
  unfolding normalize_facts
  normalize_facts-IsNormal [] done result i n h =
      let same : done ≡ result = ground (arith, h) in subst IsNormal same n
  normalize_facts-IsNormal ((name, v) ∷ given) done result i n h = elim (Bool-cases (is_null p v)) [
    | inl skipped ↦ normalize_facts-IsNormal given done result i.1 n (rw skipped at h)
    | inr kept ↦ elim (Option-cases (by_name p name slots)) [
      | inl unknown ↦ absurd (cc (rw (kept, unknown) at h))
      | inr (slot, found) ↦ elim (Result-cases (normalize_slot_value p slot v)) [
        | inr (e, bad) ↦ absurd (cc (rw (kept, found, bad) at h))
        | inl (w, made) ↦
            normalize_facts-IsNormal given (put name w done) result i.1
              (put-IsNormal name slot v w done found i.0 made n) (rw (kept, found, made) at h)
      ]
    ]
  ]

  add_defaults-IsNormal :
      (optional : List (SlotDefinition N)) (done result : Facts N)
      → All (λ slot. (by_name p slot.name slots ≡ some slot) × IsIsoDate p slot.default) optional
      → IsNormal done
      → add_defaults p optional done ≡ ok result
      → IsNormal result
  unfolding add_defaults
  add_defaults-IsNormal [] done result i n h =
      let same : done ≡ result = ground (arith, h) in subst IsNormal same n
  add_defaults-IsNormal (slot ∷ optional) done result i n h =
      elim (Bool-cases (is_missing (get slot.name done) && not (is_null p slot.default))) [
        | inr given ↦ add_defaults-IsNormal optional done result i.1 n (rw given at h)
        | inl defaulted ↦ elim (Result-cases (normalize_slot_value p slot slot.default)) [
          | inr (e, bad) ↦ absurd (cc (rw (defaulted, bad) at h))
          | inl (w, made) ↦
              add_defaults-IsNormal optional (put slot.name w done) result i.1
                (put-IsNormal slot.name slot slot.default w done i.0.0 i.0.1 made n)
                (rw (defaulted, made) at h)
        ]
      ]

module _ (p : Platform) (laws : PlatformLaws p) (slots : SlotCollection p.N) where
  open p use {N}

  -- Whenever `validate_facts` succeeds, each fact that it returns belongs to a declared slot and is
  -- a value that this slot accepts and leaves unchanged. Slot names are distinct, and date objects
  -- among the facts and the defaults print as ISO dates.
  pub validate_facts-IsNormal :
      (given : Facts N) (apply_defaults : Bool) (result : SlotValidationResult p)
      → All (λ entry. IsIsoDate p (entry.1)) given
      → All
          (λ slot. (by_name p slot.name (all_slots p slots) ≡ some slot) × IsIsoDate p slot.default)
          slots.optional
      → validate_facts p slots given apply_defaults ≡ ok result
      → IsNormal p laws (all_slots p slots) result.facts
  unfolding validate_facts
  validate_facts-IsNormal given apply_defaults result i d h =
      elim (Bool-cases (any_undeclared p (all_slots p slots) given)) [
        | inl unknown ↦ absurd (cc (rw unknown at h))
        | inr declared ↦ elim (Result-cases (normalize_facts p (all_slots p slots) given [])) [
          | inr (e, bad) ↦ absurd (cc (rw (declared, bad) at h))
          | inl (done, made) ↦
              completed apply_defaults done
                (normalize_facts-IsNormal p laws (all_slots p slots) given [] done i none_yet made)
                (rw (declared, made) at h)
        ]
      ]
    where
      none_yet : IsNormal p laws (all_slots p slots) []
      none_yet = record { typed = λ name w k. absurd (unfold get in cc (k)) }

      completed :
          (b : Bool) (done : Facts N)
          → IsNormal p laws (all_slots p slots) done
          → ((if b then add_defaults p slots.optional done else ok done) >>= λ completed.
              ok (record {
                facts = completed;
                missing_required = missing_slots p slots.required completed;
              }))
            ≡ ok result
          → IsNormal p laws (all_slots p slots) result.facts
      completed false done n k =
          let same : done ≡ result.facts = ground (arith, k) in
          subst (IsNormal p laws (all_slots p slots)) same n
      completed true done n k = elim (Result-cases (add_defaults p slots.optional done)) [
        | inr (e, bad) ↦ absurd (cc (rw bad at k))
        | inl (full, made) ↦
            let k' : ok
                  (record { facts = full; missing_required = missing_slots p slots.required full })
                ≡ ok result =
              rw made at k in
            let same : full ≡ result.facts = ground (arith, k') in
            subst (IsNormal p laws (all_slots p slots)) same
              (add_defaults-IsNormal p laws (all_slots p slots) slots.optional done full d n made)
      ]
