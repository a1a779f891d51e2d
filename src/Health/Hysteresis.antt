-- ===== src/Health/Hysteresis.antt =====
-- When `ProviderHealthService` of app/health/service.py calls a provider degraded, and when it
-- takes that back.
use weiquan_agent.Prelude.{
  ℕ, suc, ◌+◌, ◌*◌, ◌-◌, ◌≤◌, ◌<◌, String, Bool, true, false, ◌&&◌, Option, List, [], ◌∷◌, leb, ltb,
  length, if◌then◌else◌, ok, ◌≡◌, ◌↔◌, ◌⊎◌, refl, inl, inr, Bool-cases, arith, length-take, keep,
  ◌==◌, string_eq, ltb→lt, lt→ltb,
}
use weiquan_agent.Health.{
  CallResult, HealthState, HealthStatus, unknown, healthy, degraded, Store, get_state,
  recent_results, make_state, latest_first,
}
use weiquan_agent.Health.Monitor.{
  Service, state_of, succeeded, failures, successes_in_a_row, failures_in_a_row, degraded_now,
  was_degraded, next_status, calculate,
}

make_state-le : (a b : HealthState) → make_state a ≡ ok b → a.sample_count ≤ 10
unfolding make_state
make_state-le a b h = ground arith

pub make_state-ok : (a b : HealthState) → make_state a ≡ ok b → b ≡ a
unfolding make_state
make_state-ok a b h = ground arith

-- The failures in a row are failures, and the successes in a row are none.
counts_lem :
    (rs : List CallResult)
    → (failures_in_a_row rs ≤ failures rs)
      × (successes_in_a_row rs + failures rs ≤ length rs)
      × ((successes_in_a_row rs ≡ 0) ⊎ (failures_in_a_row rs ≡ 0))
unfolding failures_in_a_row successes_in_a_row
counts_lem [] = (omega arith, omega arith, inl refl)
counts_lem (r ∷ rs) =
    let (a, b, _) = counts_lem rs in
    elim (Bool-cases (succeeded r.outcome)) [
      | inl good ↦ rw good (omega (arith, a), omega (arith, b), inr refl)
      | inr bad ↦ rw bad (omega (arith, a), omega (arith, b), inl refl)
    ]

-- The conditions of `_calculate`, of the numbers that a state shows.
abbrev pub IsFailing : HealthState → Type 0
IsFailing st =
    (3 ≤ st.consecutive_failures)
    ⊎ ((4 ≤ st.sample_count) × (st.sample_count ≤ 2 * st.failure_count))

degraded_now-IsFailing :
    (p : String) (x : HealthStatus) (rs : List CallResult) (now : ℕ)
    → (degraded_now rs ≡ true) ↔ IsFailing (state_of p x rs now)
unfolding degraded_now
degraded_now-IsFailing p x rs now = ground arith

module _ (v : Service) (provider : String) (now : ℕ) (s : Store) (st : HealthState)
    (done : calculate v provider now s ≡ ok st) where
  abbrev pub recent : List CallResult
  recent = recent_results provider (now - v.window) v.sample_limit s

  pub is_state : st ≡ state_of provider (next_status (get_state provider s) recent) recent now
  unfolding calculate
  is_state =
      make_state-ok (state_of provider (next_status (get_state provider s) recent) recent now) st
        done

  status_lem :
      (previous : Option HealthState) (rs : List CallResult)
      → let st' = state_of provider (next_status previous rs) rs now in
        ((st'.status ≡ unknown) ↔ (st'.sample_count ≡ 0))
        × ((st'.status ≡ degraded) ↔ (
            (0 < st'.sample_count)
            × (IsFailing st' ⊎ ((was_degraded previous ≡ true) × (st'.consecutive_successes < 3)))))
  unfolding next_status
  status_lem previous [] =
      ((λ e. refl, λ e. refl), (λ e. absurd cc, λ e. absurd (omega (arith, e.0))))
  status_lem previous (r ∷ rs) = elim (Bool-cases (degraded_now (r ∷ rs))) [
    | inl failing ↦ rw failing (
      (λ e. absurd cc, λ e. absurd (omega arith)),
      (
        λ e. (omega arith, inl ((degraded_now-IsFailing provider degraded (r ∷ rs) now).0 failing)),
        λ e. refl,
      ),
    )
    | inr fine ↦
        rw fine
          (slow fine (was_degraded previous) (Bool-cases (ltb (successes_in_a_row (r ∷ rs)) 3)))
  ]
    where
      slow :
          (fine : degraded_now (r ∷ rs) ≡ false) (w : Bool)
          → ((ltb (successes_in_a_row (r ∷ rs)) 3 ≡ true)
              ⊎ (ltb (successes_in_a_row (r ∷ rs)) 3 ≡ false))
          → let x = (if w && ltb (successes_in_a_row (r ∷ rs)) 3 then degraded else healthy) in
            ((x ≡ unknown) ↔ (suc (length rs) ≡ 0))
            × ((x ≡ degraded) ↔ (
                (0 < suc (length rs))
                × (IsFailing (state_of provider x (r ∷ rs) now)
                    ⊎ ((w ≡ true) × (successes_in_a_row (r ∷ rs) < 3)))))
      slow fine true (inl few) = rw few (
        (λ e. absurd cc, λ e. absurd (omega arith)),
        (λ e. (omega arith, inr (refl, ltb→lt (successes_in_a_row (r ∷ rs)) 3 few)), λ e. refl),
      )
      slow fine true (inr many) = rw many (
        (λ e. absurd cc, λ e. absurd (omega arith)),
        (
          λ e. absurd cc,
          λ e. absurd (elim (e.1) [
            | inl f ↦ cc (fine, (degraded_now-IsFailing provider healthy (r ∷ rs) now).1 f)
            | inr (_, few) ↦ cc (many, lt→ltb (successes_in_a_row (r ∷ rs)) 3 few)
          ]),
        ),
      )
      slow fine false c = (
        (λ e. absurd cc, λ e. absurd (omega arith)),
        (
          λ e. absurd cc,
          λ e. absurd (elim (e.1) [
            | inl f ↦ cc (fine, (degraded_now-IsFailing provider healthy (r ∷ rs) now).1 f)
            | inr never ↦ cc (never.0)
          ]),
        ),
      )

  -- The status, by the numbers that the state shows.
  pub numbers_lem :
      ((st.status ≡ unknown) ↔ (st.sample_count ≡ 0))
      × ((st.status ≡ degraded) ↔ (
          (0 < st.sample_count)
          × (IsFailing st
              ⊎ ((was_degraded (get_state provider s) ≡ true) × (st.consecutive_successes < 3)))))
  numbers_lem = rw is_state (status_lem (get_state provider s) recent)

  within_limit : length recent ≤ v.sample_limit
  unfolding recent_results
  within_limit = omega (
    arith,
    length-take v.sample_limit (
        latest_first
          (keep (λ r. r.provider == provider && leb (now - v.window) r.occurred_at) s.results)),
  )

  at_most_ten : length recent ≤ 10
  unfolding calculate
  at_most_ten =
      make_state-le (state_of provider (next_status (get_state provider s) recent) recent now) st
        done

  -- The numbers of a state fit together: at most `sample_limit` and at most ten results are counted,
  -- failures in a row are failures, successes in a row are not, and one of the two rows is empty.
  pub calculate-counts :
      (st.sample_count ≤ v.sample_limit)
      × (st.sample_count ≤ 10)
      × (st.consecutive_failures ≤ st.failure_count)
      × (st.consecutive_successes + st.failure_count ≤ st.sample_count)
      × ((st.consecutive_successes ≡ 0) ⊎ (st.consecutive_failures ≡ 0))
  calculate-counts =
      let (in_failures, in_samples, one_row) = counts_lem recent in
      rw is_state (within_limit, at_most_ten, in_failures, in_samples, one_row)
