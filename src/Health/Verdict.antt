-- ===== src/Health/Verdict.antt =====
-- What `_calculate` of app/health/service.py says of a provider, told of its latest calls and not
-- of the counters of the state.
use weiquan_agent.Prelude.{
  ℕ, zero, suc, ◌*◌, ◌-◌, ◌≤◌, ◌<◌, String, Bool, true, false, List, [], ◌∷◌, ltb, length, take, ok,
  ◌≡◌, ◌↔◌, ◌⊎◌, refl, inl, inr, Bool-cases, arith, All, string_eq, ltb→lt,
}
use weiquan_agent.Health.{
  CallResult, HealthState, unknown, degraded, Store, get_state, recent_results,
}
use weiquan_agent.Health.Monitor.{
  Service, succeeded, failures, successes_in_a_row, failures_in_a_row, was_degraded, calculate,
}
use weiquan_agent.Health.Window.{IsWindow, recent_results_lem}
use weiquan_agent.Health.Hysteresis.{numbers_lem}
use weiquan_agent.Health.Hysteresis

abbrev pub IsSuccess : CallResult → Type 0
IsSuccess r = succeeded r.outcome ≡ true

abbrev pub IsFailure : CallResult → Type 0
IsFailure r = succeeded r.outcome ≡ false

-- There are three calls, and the three latest are all of the kind.
abbrev pub LatestThree : (CallResult → Type 0) → List CallResult → Type 0
LatestThree P rs = (3 ≤ length rs) × All P (take 3 rs)

row_of_failures :
    (n : ℕ) (rs : List CallResult)
    → (n ≤ failures_in_a_row rs) ↔ ((n ≤ length rs) × All IsFailure (take n rs))
unfolding failures_in_a_row
row_of_failures zero rs = (λ h. (omega arith, tt), λ h. omega arith)
row_of_failures (suc n) [] = (λ h. absurd (omega arith), λ h. absurd (omega (arith, h.0)))
row_of_failures (suc n) (r ∷ rs) =
    let (to, from) = row_of_failures n rs in
    elim (Bool-cases (succeeded r.outcome)) [
      | inl good ↦ rw good (λ h. absurd (omega arith), λ h. absurd cc)
      | inr bad ↦ rw bad (
        (λ h. let (a, b) = to (omega arith) in (omega (arith, a), (refl, b))),
        (λ h.
            let k : n ≤ failures_in_a_row rs = from (omega (arith, h.0), h.1.1) in
            omega (arith, k)),
      )
    ]

row_of_successes :
    (n : ℕ) (rs : List CallResult)
    → (n ≤ successes_in_a_row rs) ↔ ((n ≤ length rs) × All IsSuccess (take n rs))
unfolding successes_in_a_row
row_of_successes zero rs = (λ h. (omega arith, tt), λ h. omega arith)
row_of_successes (suc n) [] = (λ h. absurd (omega arith), λ h. absurd (omega (arith, h.0)))
row_of_successes (suc n) (r ∷ rs) =
    let (to, from) = row_of_successes n rs in
    elim (Bool-cases (succeeded r.outcome)) [
      | inr bad ↦ rw bad (λ h. absurd (omega arith), λ h. absurd cc)
      | inl good ↦ rw good (
        (λ h. let (a, b) = to (omega arith) in (omega (arith, a), (refl, b))),
        (λ h.
            let k : n ≤ successes_in_a_row rs = from (omega (arith, h.0), h.1.1) in
            omega (arith, k)),
      )
    ]

-- The provider is degraded: its three latest calls failed, or at least four are seen and half of
-- them failed, or it was degraded and its three latest calls did not all succeed.
abbrev pub IsDegraded : Bool → List CallResult → Type 0
IsDegraded before rs =
    LatestThree IsFailure rs
    ⊎ ((4 ≤ length rs) × (length rs ≤ 2 * failures rs))
    ⊎ ((0 < length rs) × (before ≡ true) × ¬ LatestThree IsSuccess rs)

empty_of_length : (rs : List CallResult) → (length rs ≡ 0) ↔ (rs ≡ [])
empty_of_length [] = (λ e. refl, λ e. refl)
empty_of_length (r ∷ rs) = (λ e. absurd (omega arith), λ e. absurd cc)

not_three : (rs : List CallResult) → (successes_in_a_row rs < 3) ↔ (¬ LatestThree IsSuccess rs)
not_three rs =
    let (to, from) = row_of_successes 3 rs in
    (
      λ few three. let k : 3 ≤ successes_in_a_row rs = from three in omega (arith, k, few),
      λ never. elim (Bool-cases (ltb (successes_in_a_row rs) 3)) [
        | inl few ↦ ltb→lt (successes_in_a_row rs) 3 few
        | inr many ↦ absurd (never (to (ground (arith, many))))
      ],
    )

counted :
    (before : Bool) (rs : List CallResult)
    → ((0 < length rs)
        × (((3 ≤ failures_in_a_row rs) ⊎ ((4 ≤ length rs) × (length rs ≤ 2 * failures rs)))
            ⊎ ((before ≡ true) × (successes_in_a_row rs < 3))))
      ↔ IsDegraded before rs
counted before rs =
    let (to, from) = row_of_failures 3 rs in
    let (few, never) = not_three rs in
    (
      λ h. elim (h.1) [
        | inl (inl three) ↦ inl (to three)
        | inl (inr half) ↦ inr (inl half)
        | inr (was, slow) ↦ inr (inr (h.0, was, few slow))
      ],
      λ h. elim h [
        | inl three ↦ (omega (arith, three.0), inl (inl (from three)))
        | inr (inl half) ↦ (omega (arith, half.0), inl (inr half))
        | inr (inr (some_, was, not_yet)) ↦ (some_, inr (was, never not_yet))
      ],
    )

-- What the service says of a provider, whenever it answers. It looks at the stored calls of the
-- provider that are not before the start of the window, from the latest on and up to the sample
-- limit. The provider is unknown exactly when there are none. It is degraded exactly when its three
-- latest calls failed, or at least four are seen and half of them failed, or there is one, it was
-- degraded before and its three latest calls did not all succeed.
pub calculate_lem :
    (v : Service) (provider : String) (now : ℕ) (s : Store) (st : HealthState)
    → calculate v provider now s ≡ ok st
    → let rs = recent_results provider (now - v.window) v.sample_limit s in
      IsWindow provider (now - v.window) v.sample_limit s.results rs
      × ((st.status ≡ unknown) ↔ (rs ≡ []))
      × ((st.status ≡ degraded) ↔ IsDegraded (was_degraded (get_state provider s)) rs)
calculate_lem v provider now s st done =
    let rs : List CallResult = recent_results provider (now - v.window) v.sample_limit s in
    let (none_seen, bad) =
      rw (Hysteresis.is_state v provider now s st done) at (numbers_lem v provider now s st done) in
    let (to_empty, of_empty) = empty_of_length rs in
    let (to_known, of_known) = counted (was_degraded (get_state provider s)) rs in
    (
      recent_results_lem provider (now - v.window) v.sample_limit s,
      rw (Hysteresis.is_state v provider now s st done)
          (λ e. to_empty (none_seen.0 e), λ e. none_seen.1 (of_empty e)),
      rw (Hysteresis.is_state v provider now s st done)
          (λ e. to_known (bad.0 e), λ e. bad.1 (of_known e)),
    )
