-- ===== src/Health/Repeats.antt =====
-- `status` of app/health/service.py, asked twice.
use weiquan_agent.Prelude.{
  ℕ, ◌-◌, String, Bool, true, false, ◌&&◌, Option, none, some, List, [], ◌∷◌, ltb, if◌then◌else◌,
  string_eq, ==_refl, Result, ok, attempt-ok, DateTime, utc, ◌≡◌, refl, ap, ◌∙◌, inl, inr,
  Bool-cases, arith, nat_eq, subst,
}
use weiquan_agent.Dict.Laws.{get-put}
use weiquan_agent.Health.{
  CallResult, HealthState, HealthStatus, unknown, healthy, degraded, Store, naive_time, Error,
  get_state, save_state, recent_results, make_state,
}
use weiquan_agent.Health.Monitor.{
  Service, state_of, degraded_now, was_degraded, next_status, calculate, same_status, same_time,
  is_persisted, status, successes_in_a_row,
}
use weiquan_agent.Health.Hysteresis.{make_state-ok}

next_status-again :
    (provider : String) (previous : Option HealthState) (rs : List CallResult) (now : ℕ)
    → next_status (some (state_of provider (next_status previous rs) rs now)) rs
      ≡ next_status previous rs
unfolding next_status
next_status-again provider previous [] now = refl
next_status-again provider previous (r ∷ rs) now =
    at (degraded_now (r ∷ rs)) (was_degraded previous) (ltb (successes_in_a_row (r ∷ rs)) 3)
  where
    abbreviated : Bool → Bool → Bool → HealthStatus
    abbreviated d w few = if d then degraded else (if w && few then degraded else healthy)

    at :
        (d w few : Bool)
        → abbreviated d (elim (abbreviated d w few) [ degraded ↦ true | _ ↦ false ]) few
          ≡ abbreviated d w few
    at true w few = refl
    at false true true = refl
    at false true false = refl
    at false false few = refl

same_status_refl : (x : HealthStatus) → same_status x x ≡ true
same_status_refl unknown = refl
same_status_refl healthy = refl
same_status_refl degraded = refl

same_time_refl : (x : Option ℕ) → same_time x x ≡ true
same_time_refl none = refl
same_time_refl (some t) = ground arith

nat_eq_refl : (n : ℕ) → nat_eq n n ≡ true
nat_eq_refl n = ground arith

is_persisted_refl : (a : HealthState) → is_persisted (some a) a ≡ true
unfolding is_persisted
is_persisted_refl a =
    rw
      (
        ==_refl a.provider,
        same_status_refl a.status,
        nat_eq_refl a.sample_count,
        nat_eq_refl a.failure_count,
        nat_eq_refl a.consecutive_successes,
        nat_eq_refl a.consecutive_failures,
        same_time_refl a.last_result_at,
        nat_eq_refl a.updated_at,
      )
      refl

get_state-save_state :
    (provider : String) (st : HealthState) (s : Store)
    → st.provider ≡ provider
    → get_state provider (save_state st s) ≡ some st
unfolding get_state save_state
get_state-save_state provider st s e =
    get-put st.provider provider st s.states
    ∙ ground (arith, string_eq.agrees_iff st.provider provider)

recent_results-save_state :
    (provider : String) (since limit : ℕ) (st : HealthState) (s : Store)
    → recent_results provider since limit (save_state st s) ≡ recent_results provider since limit s
unfolding recent_results save_state
recent_results-save_state provider since limit st s = refl

module _ (v : Service) (provider : String) where
  calculate-save_state :
      (now : ℕ) (s : Store) (st : HealthState)
      → calculate v provider now s ≡ ok st
      → (st.provider ≡ provider) × (calculate v provider now (save_state st s) ≡ ok st)
  unfolding calculate
  calculate-save_state now s st h =
      let rs = recent_results provider (now - v.window) v.sample_limit s in
      let e =
        make_state-ok (state_of provider (next_status (get_state provider s) rs) rs now) st h in
      let mine : st.provider ≡ provider = ap (λ (x : HealthState). x.provider) e in
      let settled : next_status (some st) rs ≡ next_status (get_state provider s) rs =
        ap (λ (x : HealthState). next_status (some x) rs) e
        ∙ next_status-again provider (get_state provider s) rs now in
      (
        mine,
        rw
            (
              recent_results-save_state provider (now - v.window) v.sample_limit st s,
              get_state-save_state provider st s mine,
            )
            (ap (λ (x : HealthStatus). make_state (state_of provider x rs now)) settled ∙ h),
      )

  -- The status is settled: asked again at the same time, the service returns the same state and
  -- leaves the store as the first call left it.
  pub status-status :
      (now : DateTime) (s s' : Store) (st : HealthState)
      → status v provider now s ≡ (ok st, s')
      → status v provider now s' ≡ (ok st, s')
  unfolding status
  status-status now s s' st h =
      let (t, reads, h0) = attempt-ok (utc naive_time now) s s' _ st h in
      let (x, made, h1) = attempt-ok (calculate v provider t s) s s' _ st h0 in
      let same : x ≡ st = ground (arith, h1) in
      let made_st : calculate v provider t s ≡ ok st = made ∙ ap ok same in
      let left : (if is_persisted (get_state provider s) st then s else save_state st s) ≡ s' =
        subst (λ y. (if is_persisted (get_state provider s) y then s else save_state y s) ≡ s') same
          (ap (λ (z : Result Error HealthState × Store). z.1) h1) in
      elim (Bool-cases (is_persisted (get_state provider s) st)) [
        | inl there ↦
            subst (λ (z : Store). status v provider now z ≡ (ok st, z)) (rw there at left)
              (rw (reads, made_st, there, status) refl)
        | inr changed ↦
            subst (λ (z : Store). status v provider now z ≡ (ok st, z)) (rw changed at left)
              (let (mine, again) = calculate-save_state t s st made_st in
                rw
                  (
                    reads,
                    again,
                    get_state-save_state provider st s mine,
                    is_persisted_refl st,
                    status,
                  )
                  refl)
      ]
