-- ===== src/Health/Monitor.antt =====
-- `ProviderHealthService` of app/health/service.py. Clock readings and the identifiers that `uuid4`
-- draws are arguments.
use weiquan_agent.Prelude.{
  ℕ, suc, ◌-◌, ◌*◌, String, Bool, true, false, not, ◌&&◌, ◌||◌, Option, none, some, List, [], ◌∷◌,
  ltb, leb, nat_eq, count, length, if◌then◌else◌, string_eq, ◌==◌, Result, ok, attempt, DateTime,
  utc, ◌>>◌, require, or_raise,
}
use weiquan_agent.Health.{
  Error, naive_time, invalid_uuid, invalid_settings, ProviderOutcome, success, HealthStatus,
  unknown, healthy, degraded, CallResult, make_result, HealthState, make_state, Store, add_result,
  recent_results, get_state, save_state,
}

pub record Service : Type 0 where
  pub window : ℕ
  pub sample_limit : ℕ

-- `__init__`
unfoldable pub make_service : Service → Result Error Service
make_service v = do
  require (ltb 0 v.window) invalid_settings
  require (leb 4 v.sample_limit && leb v.sample_limit 100) invalid_settings
  ok v

abbrev pub succeeded : ProviderOutcome → Bool
succeeded success = true
succeeded _ = false

abbrev pub failures : List CallResult → ℕ
failures results = count (λ r. not (succeeded r.outcome)) results

-- `_consecutive` for successes
unfoldable pub successes_in_a_row : List CallResult → ℕ
successes_in_a_row [] = 0
successes_in_a_row (r ∷ rs) =
    let rest = successes_in_a_row rs in if succeeded r.outcome then suc rest else 0

-- `_consecutive` for failures
unfoldable pub failures_in_a_row : List CallResult → ℕ
failures_in_a_row [] = 0
failures_in_a_row (r ∷ rs) =
    let rest = failures_in_a_row rs in if succeeded r.outcome then 0 else suc rest

abbrev pub last_time : List CallResult → Option ℕ
last_time [] = none
last_time (r ∷ rs) = some r.occurred_at

-- The record that `_state` builds.
abbrev pub state_of : String → HealthStatus → List CallResult → ℕ → HealthState
state_of provider status results now = record {
  provider = provider;
  status = status;
  sample_count = length results;
  failure_count = failures results;
  consecutive_successes = successes_in_a_row results;
  consecutive_failures = failures_in_a_row results;
  last_result_at = last_time results;
  updated_at = now;
}

-- failures / len(results) >= 0.5 is 2 * failures >= len(results).
unfoldable pub degraded_now : List CallResult → Bool
degraded_now results =
    leb 3 (failures_in_a_row results)
    || (leb 4 (length results) && leb (length results) (2 * failures results))

abbrev pub was_degraded : Option HealthState → Bool
was_degraded none = false
was_degraded (some s) = elim s.status [ degraded ↦ true | _ ↦ false ]

unfoldable pub next_status : Option HealthState → List CallResult → HealthStatus
next_status previous [] = unknown
next_status previous (r ∷ rs) =
    if degraded_now (r ∷ rs)
    then degraded
    else (if was_degraded previous && ltb (successes_in_a_row (r ∷ rs)) 3
        then degraded
        else healthy)

module _ (v : Service) where
  -- `_calculate`
  unfoldable pub calculate : String → ℕ → Store → Result Error HealthState
  calculate provider now s =
      let results = recent_results provider (now - v.window) v.sample_limit s in
      make_state (state_of provider (next_status (get_state provider s) results) results now)

-- The arguments of `record`.
pub record RecordRequest : Type 0 where
  pub provider : String
  pub model : String
  pub outcome : ProviderOutcome
  pub duration_ms : ℕ
  pub input_tokens : ℕ
  pub output_tokens : ℕ
  pub total_tokens : ℕ
  pub logical_call_id : Option String

abbrev pub call_id : (String → Option String) → String → Option String → Result Error String
call_id uuid fresh none = ok fresh
call_id uuid fresh (some s) = or_raise (uuid s) invalid_uuid

abbrev pub new_result : RecordRequest → String → String → ℕ → CallResult
new_result q id call current = record {
  id = id;
  logical_call_id = call;
  provider = q.provider;
  model = q.model;
  outcome = q.outcome;
  duration_ms = q.duration_ms;
  input_tokens = q.input_tokens;
  output_tokens = q.output_tokens;
  total_tokens = q.total_tokens;
  occurred_at = current;
}

-- `record`. `uuid` is Python's UUID, with none for its ValueError; two identifiers are drawn. The
-- result stays stored when the state after it is refused.
unfoldable pub record_call :
    Service
    → (String → Option String)
    → String
    → String
    → DateTime
    → RecordRequest
    → Store
    → Result Error HealthState × Store
record_call v uuid fresh_id fresh_call occurred_at q s =
    attempt (utc naive_time occurred_at) s λ current.
      attempt (call_id uuid fresh_call q.logical_call_id) s λ call.
        attempt (make_result (new_result q fresh_id call current)) s λ result.
          let stored = add_result result s in
          attempt (calculate v q.provider current stored) stored
            λ state. (ok state, save_state state stored)

abbrev pub same_status : HealthStatus → HealthStatus → Bool
same_status unknown unknown = true
same_status healthy healthy = true
same_status degraded degraded = true
same_status _ _ = false

abbrev pub same_time : Option ℕ → Option ℕ → Bool
same_time none none = true
same_time (some a) (some b) = nat_eq a b
same_time _ _ = false

-- persisted == state
unfoldable pub is_persisted : Option HealthState → HealthState → Bool
is_persisted none b = false
is_persisted (some a) b =
    a.provider == b.provider
    && (same_status a.status b.status
        && (nat_eq a.sample_count b.sample_count
            && (nat_eq a.failure_count b.failure_count
                && (nat_eq a.consecutive_successes b.consecutive_successes
                    && (nat_eq a.consecutive_failures b.consecutive_failures
                        && (same_time a.last_result_at b.last_result_at
                            && nat_eq a.updated_at b.updated_at))))))

unfoldable pub status : Service → String → DateTime → Store → Result Error HealthState × Store
status v provider now s = attempt (utc naive_time now) s λ current.
    attempt (calculate v provider current s) s λ state.
      (ok state, if is_persisted (get_state provider s) state then s else save_state state s)
