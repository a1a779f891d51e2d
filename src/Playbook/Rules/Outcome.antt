-- ===== src/Playbook/Rules/Outcome.antt =====
-- The result of `evaluate_playbook`, app/playbooks/evaluator.py.
use weiquan_agent.Prelude.{
  Bool, true, false, Option, some, none, List, [], ◌∷◌, Result, ok, err, ◌>>=◌, or_raise, ◌≡◌, ◌≢◌,
  refl, sym, ap, ◌∙◌, Bool-cases, Option-cases, Result-cases, inl, inr, arith,
}
use weiquan_agent.Playbook.{Platform, Facts, Condition}
use weiquan_agent.Playbook.Evaluator.{evaluate_condition}
use weiquan_agent.Playbook.Slots.{validate_facts, SlotValidationResult, is_missing}
use weiquan_agent.Playbook.Rules.{
  ResultStatus, ready, RuleDefinition, RuleMatch, Playbook, VerdictDefinition, verdict_by_code,
  Error, validate_branch, run_rules, evaluate_playbook, EvaluationResult, is_empty, lift_error,
  no_default_rule, unknown_verdict, required_slots_missing,
}
use weiquan_agent.Playbook.Rules.Contract.{is_known, validate_verdicts}
use weiquan_agent.Playbook.Rules.Verdicts.{
  IsSound, validate_verdicts-IsSound, first_rule, first_rule-last, first_rule-exists, applies,
  AreValid, looked_at, run_rules_lem,
}

first_rule-applies :
    {N : Type 0} (f : RuleDefinition N → Bool) (rs : List (RuleDefinition N)) (r : RuleDefinition N)
    → first_rule f rs ≡ some r
    → f r ≡ true
unfolding first_rule
first_rule-applies f [] r h = cc
first_rule-applies f (x ∷ xs) r h = elim (Bool-cases (f x)) [
  | inl yes_ ↦ let same : x ≡ r = ground (arith, h, yes_) in ap f (sym same) ∙ yes_
  | inr no_ ↦ first_rule-applies f xs r (rw no_ at h)
]

module _ (p : Platform) (playbook : Playbook p.N) where
  open p use {N}

  -- The result for a rule, its verdict and the facts that were evaluated.
  abbrev pub result_of : RuleDefinition N → VerdictDefinition → Facts N → EvaluationResult p
  result_of r v facts = record {
    verdict = v.code;
    verdict_label = v.label;
    status = v.status;
    selected_rule_id = r.id;
    key_point = r.key_point;
    facts = facts;
    matches = looked_at p facts playbook.rules;
  }

  abbrev success : EvaluationResult p → Result Error (EvaluationResult p)
  success result = ok result

  pub record IsOutcome (given : Facts N) (result : EvaluationResult p) : Type 0 where
    pub validated : SlotValidationResult p
    pub rule : RuleDefinition N
    pub verdict : VerdictDefinition
    pub from_facts : validate_facts p playbook.slots given true ≡ ok validated
    pub complete : is_empty validated.missing_required ≡ true
    pub is_first : first_rule (applies p validated.facts) playbook.rules ≡ some rule
    pub has_code : verdict_by_code rule.verdict playbook.verdicts ≡ some verdict
    pub is_result : result_of rule verdict validated.facts ≡ result

  module _ (valid : AreValid p playbook.rules) (given : Facts N) where
    finished :
        (s : SlotValidationResult p)
        → validate_facts p playbook.slots given true ≡ ok s
        → is_empty s.missing_required ≡ true
        → evaluate_playbook p playbook given ≡ (
            or_raise (first_rule (applies p s.facts) playbook.rules) no_default_rule >>= λ r.
            or_raise (verdict_by_code r.verdict playbook.verdicts) unknown_verdict >>= λ v.
            ok (result_of r v s.facts))
    unfolding evaluate_playbook
    finished s from full = rw (from, full, run_rules_lem p s.facts playbook.rules [] valid) refl

    stops_early :
        (s : SlotValidationResult p)
        → validate_facts p playbook.slots given true ≡ ok s
        → is_empty s.missing_required ≡ false
        → evaluate_playbook p playbook given ≡ err required_slots_missing
    unfolding evaluate_playbook
    stops_early s from full = rw (from, full) refl

    fails_early :
        (e : weiquan_agent.Playbook.Slots.Error)
        → validate_facts p playbook.slots given true ≡ err e
        → evaluate_playbook p playbook given ≡ err (weiquan_agent.Playbook.Rules.facts_error e)
    unfolding evaluate_playbook
    fails_early e from = rw from refl

    -- When evaluation succeeds, its result is that of the first rule, in the order of the playbook,
    -- that applies to the validated facts; no required fact was missing, and the matches explain
    -- the rules up to that one.
    pub evaluate_playbook-IsOutcome :
        (result : EvaluationResult p)
        → evaluate_playbook p playbook given ≡ ok result
        → IsOutcome given result
    evaluate_playbook-IsOutcome result h =
        elim (Result-cases (validate_facts p playbook.slots given true)) [
          | inr (e, bad) ↦ absurd (cc (fails_early e bad, h))
          | inl (s, from) ↦ elim (Bool-cases (is_empty s.missing_required)) [
            | inr missing ↦ absurd (cc (stops_early s from missing, h))
            | inl full ↦ selected s from full (sym (finished s from full) ∙ h)
          ]
        ]
      where
        selected :
            (s : SlotValidationResult p)
            → validate_facts p playbook.slots given true ≡ ok s
            → is_empty s.missing_required ≡ true
            → (or_raise (first_rule (applies p s.facts) playbook.rules) no_default_rule >>= λ r.
                or_raise (verdict_by_code r.verdict playbook.verdicts) unknown_verdict >>= λ v.
                ok (result_of r v s.facts))
              ≡ ok result
            → IsOutcome given result
        selected s from full k =
            elim (Option-cases (first_rule (applies p s.facts) playbook.rules)) [
              | inl absent ↦ absurd (cc (rw absent at k))
              | inr (r, first) ↦ elim (Option-cases (verdict_by_code r.verdict playbook.verdicts)) [
                | inl unknown ↦ absurd (cc (rw (first, unknown) at k))
                | inr (v, code) ↦
                    let done : success (result_of r v s.facts) ≡ ok result =
                      rw (first, code) at k in
                    record {
                      validated = s;
                      rule = r;
                      verdict = v;
                      from_facts = from;
                      complete = full;
                      is_first = first;
                      has_code = code;
                      is_result = ground (arith, done);
                    }
              ]
            ]

    default_applies :
        (facts : Facts N) (r : RuleDefinition N) → r.is_default ≡ true → applies p facts r ≡ true
    unfolding applies
    default_applies facts r e = rw e refl

    -- A valid playbook always reaches a verdict: once the facts validate and none is missing,
    -- evaluation succeeds.
    pub evaluate_playbook-total :
        (s : SlotValidationResult p)
        → validate_verdicts p playbook ≡ ok tt
        → validate_facts p playbook.slots given true ≡ ok s
        → is_empty s.missing_required ≡ true
        → (result : EvaluationResult p) × (evaluate_playbook p playbook given ≡ ok result)
    evaluate_playbook-total s contract from full =
        let sound = validate_verdicts-IsSound p playbook contract in
        let some_rule =
          first_rule-exists (applies p s.facts) (default_applies s.facts) playbook.rules
            (λ r. is_known playbook.verdicts r.verdict) sound.default_last sound.verdicts_known in
        with_verdict some_rule.0 some_rule.1 some_rule.2
      where
        with_verdict :
            (r : RuleDefinition N)
            → first_rule (applies p s.facts) playbook.rules ≡ some r
            → is_known playbook.verdicts r.verdict ≡ true
            → (result : EvaluationResult p) × (evaluate_playbook p playbook given ≡ ok result)
        with_verdict r first known =
            elim (Option-cases (verdict_by_code r.verdict playbook.verdicts)) [
              | inl unknown ↦ absurd (ground (arith, known, unknown))
              | inr (v, code) ↦
                  (result_of r v s.facts, finished s from full ∙ rw (first, code) refl)
            ]

    -- In a playbook with a valid contract, a result that is ready comes from a rule that is not the
    -- default and whose condition matches the validated facts.
    pub evaluate_playbook-ready :
        (result : EvaluationResult p)
        → validate_verdicts p playbook ≡ ok tt
        → evaluate_playbook p playbook given ≡ ok result
        → result.status ≡ ready
        → (o : IsOutcome given result) × (c : Condition N) × (o.rule.is_default ≡ false)
          × (o.rule.condition ≡ some c)
          × ((evaluate_condition p c o.validated.facts).matched ≡ true)
    evaluate_playbook-ready result contract h status =
        let o = evaluate_playbook-IsOutcome result h in
        from_condition o o.rule.is_default refl o.rule.condition refl
      where
        sound : IsSound playbook
        sound = validate_verdicts-IsSound p playbook contract

        -- The default rule's verdict is not ready.
        not_default : (o : IsOutcome given result) → o.rule.is_default ≢ true
        not_default o d =
            let last =
              first_rule-last (applies p o.validated.facts) (default_applies o.validated.facts)
                playbook.rules o.rule sound.one_default sound.default_last o.is_first d in
            let verdict_ready : o.verdict.status ≡ ready =
              ap (λ (x : EvaluationResult p). x.status) o.is_result ∙ status in
            ground (arith, sound.cautious, last, o.has_code, verdict_ready)

        applied : (o : IsOutcome given result) → applies p o.validated.facts o.rule ≡ true
        applied o =
            first_rule-applies (applies p o.validated.facts) playbook.rules o.rule o.is_first

        from_condition :
            (o : IsOutcome given result) (d : Bool)
            → o.rule.is_default ≡ d
            → (c : Option (Condition N)) → o.rule.condition ≡ c
            → (o : IsOutcome given result) × (c : Condition N) × (o.rule.is_default ≡ false)
              × (o.rule.condition ≡ some c)
              × ((evaluate_condition p c o.validated.facts).matched ≡ true)
        from_condition o true e c k = absurd (not_default o e)
        from_condition o false e none k = absurd (unfold applies in ground (arith, applied o, e, k))
        from_condition o false e (some c) k =
            (o, c, e, k, unfold applies in ground (arith, applied o, e, k))
