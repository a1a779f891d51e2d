-- ===== src/Playbook/Evaluator/Local.antt =====
-- The facts that `evaluate_condition` of app/playbooks/evaluator.py reads.
use weiquan_agent.Prelude.{
  String, true, ◌≡◌, refl, List, [], ◌∷◌, ◌++◌, All, contains as mentions, string_eq, Bool-cases,
  inl, inr, arith, subst, ◌==◌,
}
use weiquan_agent.Dict.{get}
use weiquan_agent.Playbook.{
  Platform, Facts, Condition, Conditions, exists, eq, neq, gte, lte, contains, in_, all_, any_,
  not_, nil, cons,
}
use weiquan_agent.Playbook.Evaluator.{
  dedupe_onto, condition_slot_names, children_slot_names, evaluate_condition, evaluate_children,
}

All-mentions :
    (P : String → Type 0) (x : String) (xs : List String) → All P xs → mentions x xs ≡ true → P x
All-mentions P x [] h m = absurd (ground (arith, m))
All-mentions P x (y ∷ xs) h m = elim (Bool-cases (y == x)) [
  | inl same ↦ subst P ((string_eq.agrees_iff y x).0 same) h.0
  | inr other ↦ All-mentions P x xs h.1 (ground (arith, m, other))
]

All-split : (P : String → Type 0) (xs ys : List String) → All P (xs ++ ys) → All P xs × All P ys
All-split P [] ys h = (tt, h)
All-split P (x ∷ xs) ys h = let k = All-split P xs ys h.1 in ((h.0, k.0), k.1)

-- What holds of every name of a list without repetitions holds of every name of the list.
All-of_dedupe :
    (P : String → Type 0) (seen xs : List String)
    → All P (dedupe_onto seen xs)
    → All P seen × All P xs
unfolding dedupe_onto
All-of_dedupe P seen [] h = (h, tt)
All-of_dedupe P seen (x ∷ xs) h = elim (Bool-cases (mentions x seen)) [
  | inl old ↦
      let k = All-of_dedupe P seen xs (rw old at h) in (k.0, (All-mentions P x seen k.0 old, k.1))
  | inr new ↦
      let k = All-of_dedupe P (seen ++ x ∷ []) xs (rw new at h) in
      let s = All-split P seen (x ∷ []) k.0 in (s.0, (s.1.0, k.1))
]

module _ (p : Platform) (f g : Facts p.N) where
  open p use {N}

  abbrev pub Agree : List String → Type 0
  Agree names = All (λ name. get name f ≡ get name g) names

  mutual
    unfolding condition_slot_names evaluate_condition

    evaluate-Agree :
        (c : Condition N)
        → Agree (condition_slot_names c)
        → evaluate_condition p c f ≡ evaluate_condition p c g
    evaluate-Agree (exists slot) h = rw (h.0) refl
    evaluate-Agree (eq q) h = rw (h.0) refl
    evaluate-Agree (neq q) h = rw (h.0) refl
    evaluate-Agree (gte q) h = rw (h.0) refl
    evaluate-Agree (lte q) h = rw (h.0) refl
    evaluate-Agree (contains q) h = rw (h.0) refl
    evaluate-Agree (in_ q) h = rw (h.0) refl
    evaluate-Agree (all_ cs) h =
        rw
          (children-Agree cs
            (All-of_dedupe (λ name. get name f ≡ get name g) [] (children_slot_names cs) h).1)
          refl
    evaluate-Agree (any_ cs) h =
        rw
          (children-Agree cs
            (All-of_dedupe (λ name. get name f ≡ get name g) [] (children_slot_names cs) h).1)
          refl
    evaluate-Agree (not_ c) h = rw (evaluate-Agree c h) refl

    children-Agree :
        (cs : Conditions N)
        → Agree (children_slot_names cs)
        → evaluate_children p cs f ≡ evaluate_children p cs g
    children-Agree nil h = refl
    children-Agree (cons c cs) h =
        let s =
          All-split (λ name. get name f ≡ get name g) (condition_slot_names c)
            (children_slot_names cs) h in
        rw (evaluate-Agree c s.0, children-Agree cs s.1) refl

  inputs_lem : (c : Condition N) → (evaluate_condition p c f).inputs ≡ condition_slot_names c
  unfolding evaluate_condition condition_slot_names
  inputs_lem (exists slot) = refl
  inputs_lem _ = refl

  -- Two sets of facts that agree on the inputs which a condition reports give it the same result,
  -- and the inputs are those of the condition alone.
  pub evaluate_condition-local :
      (c : Condition N)
      → Agree (evaluate_condition p c f).inputs
      → evaluate_condition p c f ≡ evaluate_condition p c g
  evaluate_condition-local c h = evaluate-Agree c (subst Agree (inputs_lem c) h)
