-- ===== src/Health.antt =====
-- The health of the model providers: the records and `InMemoryProviderHealthStore` of
-- app/providers/health.py. A duration is a natural number, since the code raises a negative one to
-- zero.
pub mod Monitor
pub mod Hysteresis
pub mod Repeats
pub mod Window
pub mod Verdict
mod Tests
use Prim.Native.Nat.{Ordering}
use Prim.Native.String.{count as str_count, compare as str_compare}
use weiquan_agent.Prelude.{
  ℕ, suc, ◌+◌, ◌-◌, ◌*◌, String, Bool, true, false, not, ◌&&◌, ◌||◌, Option, none, some, List, [],
  ◌∷◌, ◌++◌, ltb, leb, nat_eq, any, keep, count, length, take, if◌then◌else◌, string_eq, ◌==◌,
  Result, ok, err, attempt, DateTime, utc, ◌>>=◌, ◌>>◌, require, or_raise,
}
use weiquan_agent.Dict.{Dict, get, put}

pub data Error : Type 0 where
  -- ValueError of `_utc`, of UUID and of the constructor; pydantic's ValidationError
  naive_time invalid_uuid invalid_settings invalid_record : Error

pub data ProviderOutcome : Type 0 where
  success timeout network_error rate_limited server_error invalid_output rejected
        configuration_error provider_error :
      ProviderOutcome

pub data HealthStatus : Type 0 where
  unknown healthy degraded : HealthStatus

pub record CallResult : Type 0 where
  pub id : String
  pub logical_call_id : String
  pub provider : String
  pub model : String
  pub outcome : ProviderOutcome
  pub duration_ms : ℕ
  pub input_tokens : ℕ
  pub output_tokens : ℕ
  pub total_tokens : ℕ
  pub occurred_at : ℕ

abbrev within : ℕ → ℕ → String → Bool
within low high s = leb low (str_count s) && leb (str_count s) high

unfoldable pub make_result : CallResult → Result Error CallResult
make_result r = if within 1 50 r.provider && within 1 200 r.model then ok r else err invalid_record

pub record HealthState : Type 0 where
  pub provider : String
  pub status : HealthStatus
  pub sample_count : ℕ
  pub failure_count : ℕ
  pub consecutive_successes : ℕ
  pub consecutive_failures : ℕ
  pub last_result_at : Option ℕ
  pub updated_at : ℕ

unfoldable pub make_state : HealthState → Result Error HealthState
make_state s =
    if within 1 50 s.provider
      && (leb s.sample_count 10
          && (leb s.failure_count 10
              && (leb s.consecutive_successes 10 && leb s.consecutive_failures 10)))
    then ok s
    else err invalid_record

pub record Store : Type 0 where
  pub results : List CallResult
  pub states : Dict String HealthState

unfoldable pub add_result : CallResult → Store → Store
add_result r s =
    if any (λ item. item.id == r.id) s.results
    then s
    else record s { results = s.results ++ r ∷ [] }

-- (a.occurred_at, str(a.id)) < (b.occurred_at, str(b.id))
unfoldable pub earlier : CallResult → CallResult → Bool
earlier a b =
    ltb a.occurred_at b.occurred_at
    || (nat_eq a.occurred_at b.occurred_at
        && elim (str_compare a.id b.id) [ Ordering.lt ↦ true | _ ↦ false ])

unfoldable pub insert_latest : CallResult → List CallResult → List CallResult
insert_latest r [] = r ∷ []
insert_latest r (x ∷ xs) =
    let rest = insert_latest r xs in if earlier r x then x ∷ rest else r ∷ x ∷ xs

-- matches.sort(key=..., reverse=True)
unfoldable pub latest_first : List CallResult → List CallResult
latest_first [] = []
latest_first (r ∷ rs) = insert_latest r (latest_first rs)

unfoldable pub recent_results : String → ℕ → ℕ → Store → List CallResult
recent_results provider since limit s =
    take limit
      (latest_first (keep (λ r. r.provider == provider && leb since r.occurred_at) s.results))

unfoldable pub get_state : String → Store → Option HealthState
get_state provider s = get provider s.states

unfoldable pub save_state : HealthState → Store → Store
save_state state s = record s { states = put state.provider state s.states }
