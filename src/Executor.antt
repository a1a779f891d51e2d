-- ===== src/Executor.antt =====
-- `BoundedExecutor` of app/execution/bounded.py: the counters, the blocks that `run` executes under
-- the condition's lock, and the time budget of one call. Durations are in microseconds.
pub mod Steps
pub mod Leak
mod Tests
use weiquan_agent.Prelude.{
  ℕ, zero, suc, ◌+◌, ◌-◌, min, String, Bool, true, false, Option, some, none, ltb, leb, not, ◌==◌,
  string_eq, if◌then◌else◌, Result, ok, err, ◌>>=◌, ◌>>◌, require,
}

pub data Error : Type 0 where
  -- ValueError of the constructor and of `run`
  empty_name invalid_concurrency invalid_wait_timeout invalid_budget : Error
  -- BoundedExecutionBusyError
  queue_full queue_timeout : Error
  -- BoundedExecutionTimeoutError
  total_timeout : Error

-- A counter that the code could take below zero: `negsuc n` is -(n + 1).
pub data ℤ : Type 0 where
  pos : ℕ → ℤ
  negsuc : ℕ → ℤ

unfoldable pub increase : ℤ → ℤ
increase (pos n) = pos (suc n)
increase (negsuc zero) = pos 0
increase (negsuc (suc n)) = negsuc n

unfoldable pub decrease : ℤ → ℤ
decrease (pos zero) = negsuc 0
decrease (pos (suc n)) = pos n
decrease (negsuc n) = negsuc (suc n)

-- n >= bound
unfoldable pub at_least : ℤ → ℕ → Bool
at_least (pos n) bound = leb bound n
at_least (negsuc n) bound = false

pub record Config : Type 0 where
  pub max_concurrency : ℕ
  pub max_waiting : ℕ
  pub wait_timeout : Option ℕ

abbrev positive : Option ℕ → Bool
positive none = true
positive (some t) = ltb 0 t

-- The checks of `__init__`, in its order; `strip` is Python's. A negative `max_waiting`, which is
-- refused too, is left out.
unfoldable pub make_config : (String → String) → String → Config → Result Error Config
make_config strip name c = do
  require (not (strip name == "")) empty_name
  require (leb 1 c.max_concurrency) invalid_concurrency
  require (positive c.wait_timeout) invalid_wait_timeout
  ok c

-- The check of `run` on its total budget.
unfoldable pub check_budget : Option ℕ → Result Error (Unit {0})
check_budget total = require (positive total) invalid_budget

pub record Counters : Type 0 where
  pub running : ℕ
  pub waiting : ℤ

abbrev pub fresh : Counters
fresh = record { running = 0; waiting = pos 0 }

pub data Entry : Type 0 where
  acquired queued rejected : Entry

-- The first block under the lock.
unfoldable pub enter : Config → Counters → Entry × Counters
enter c s =
    if ltb s.running c.max_concurrency
    then (acquired, record s { running = s.running + 1 })
    else if at_least s.waiting c.max_waiting
    then (rejected, s)
    else (queued, record s { waiting = increase s.waiting })

-- The condition that `wait_for_slot` waits for, and what it writes once it holds.
unfoldable pub slot_free : Config → Counters → Bool
slot_free c s = ltb s.running c.max_concurrency

unfoldable pub take_slot : Counters → Counters
take_slot s = record { running = s.running + 1; waiting = decrease s.waiting }

-- The `finally` block, for the call's own flags `queued` and `acquired`.
unfoldable pub leave : Bool → Bool → Counters → Counters
leave was_queued was_acquired s = record {
  running = if was_acquired then s.running - 1 else s.running;
  waiting = if was_queued then decrease s.waiting else s.waiting;
}

-- `total_timeout_seconds - (monotonic() - started)`, refused where it is not positive.
unfoldable pub budget_left : ℕ → ℕ → Result Error ℕ
budget_left total elapsed = if leb total elapsed then err total_timeout else ok (total - elapsed)

abbrev or_default : Option ℕ → Option ℕ → Option ℕ
or_default none default = default
or_default (some t) default = some t

abbrev tighter : Option ℕ → ℕ → ℕ
tighter none remaining = remaining
tighter (some t) remaining = min t remaining

-- How long a queued call waits: the call's own limit or else the executor's, cut to the budget.
unfoldable pub wait_limit : Config → Option ℕ → Option ℕ → ℕ → Result Error (Option ℕ)
wait_limit c wait none elapsed = ok (or_default wait c.wait_timeout)
wait_limit c wait (some total) elapsed = do
  remaining ← budget_left total elapsed
  ok (some (tighter (or_default wait c.wait_timeout) remaining))

-- The error of a wait that ran out.
unfoldable pub wait_error : Option ℕ → ℕ → Error
wait_error none elapsed = queue_timeout
wait_error (some total) elapsed = if leb total elapsed then total_timeout else queue_timeout
