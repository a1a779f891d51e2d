-- ===== src/Health/Tests.antt =====
-- One provider of app/health/service.py that fails three times.
use weiquan_agent.Prelude.{ℕ, ◌-◌, String, some, [], ◌∷◌, ok, aware, ◌≡◌, ◌↔◌, refl, string_eq}
use weiquan_agent.Dict.{get, put}
use weiquan_agent.Health.{
  ProviderOutcome, success, timeout, CallResult, HealthState, unknown, degraded, Store, make_state,
  recent_results, latest_first, insert_latest, earlier, get_state, save_state,
}
use weiquan_agent.Health.Monitor.{
  Service, next_status, degraded_now, failures_in_a_row, successes_in_a_row, was_degraded,
  calculate, is_persisted, status,
}
use weiquan_agent.Health.Window.{IsWindow}
use weiquan_agent.Health.Verdict.{IsDegraded, calculate_lem}
use weiquan_agent.Health.Repeats.{status-status}

abbrev half_hour : Service
half_hour = record { window = 1800; sample_limit = 10 }

abbrev call : String → ProviderOutcome → ℕ → CallResult
call id outcome at = record {
  id = id;
  logical_call_id = id;
  provider = "deepseek";
  model = "chat";
  outcome = outcome;
  duration_ms = 20;
  input_tokens = 1;
  output_tokens = 1;
  total_tokens = 2;
  occurred_at = at;
}

abbrev seen : Store
seen = record {
  results =
      call "a" success 2000
      ∷ call "b" timeout 2100
      ∷ call "d" timeout 2300
      ∷ call "c" timeout 2200
      ∷ [];
  states = [];
}

abbrev failing : HealthState
failing = record {
  provider = "deepseek";
  status = degraded;
  sample_count = 4;
  failure_count = 3;
  consecutive_successes = 0;
  consecutive_failures = 3;
  last_result_at = some 2300;
  updated_at = 2400;
}

abbrev noted : Store
noted = record seen { states = ("deepseek", failing) ∷ [] }

fails : calculate half_hour "deepseek" 2400 seen ≡ ok failing
unfolding calculate recent_results latest_first insert_latest earlier get_state get next_status
    degraded_now failures_in_a_row successes_in_a_row make_state
fails = refl

asked : status half_hour "deepseek" (aware 2400) seen ≡ (ok failing, noted)
unfolding status calculate recent_results latest_first insert_latest earlier get_state get
    next_status degraded_now failures_in_a_row successes_in_a_row make_state is_persisted save_state
    put
asked = refl

calculate_lem_example :
    let rs = recent_results "deepseek" (2400 - 1800) 10 seen in
    IsWindow "deepseek" (2400 - 1800) 10 seen.results rs
    × ((failing.status ≡ unknown) ↔ (rs ≡ []))
    × ((failing.status ≡ degraded) ↔ IsDegraded (was_degraded (get_state "deepseek" seen)) rs)
calculate_lem_example = calculate_lem half_hour "deepseek" 2400 seen failing fails

status-status_example : status half_hour "deepseek" (aware 2400) noted ≡ (ok failing, noted)
status-status_example = status-status half_hour "deepseek" (aware 2400) seen noted failing asked
