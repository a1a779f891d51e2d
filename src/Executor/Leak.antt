-- ===== src/Executor/Leak.antt =====
-- Histories of `BoundedExecutor.run`, app/execution/bounded.py: its counters against the calls in
-- flight.
use weiquan_agent.Prelude.{ℕ, ◌+◌, ◌-◌, ◌≤◌, ◌<◌, ◌≡◌, ◌≢◌, Option, some, none, arith, ok}
use weiquan_agent.Executor.{ℤ, pos, negsuc, Config, wait_limit, budget_left, enter, acquired}
use weiquan_agent.Executor.Steps.{
  State, start, Run, here, next, late, IsOff, Step-IsOff, pos_part, neg_part,
}

start-IsOff : (c : Config) → IsOff c 0 start
start-IsOff c = omega arith

-- In every history from the start, `running` is the number of calls with a slot plus the number of
-- late cancellations, `waiting` is the number of waiting calls less that number, `running` is
-- at most the concurrency limit, and the queue is within its limit plus that number.
pub run-IsOff : {c : Config} {s : State} (r : Run c start s) → IsOff c (late r) s
run-IsOff {c} here = start-IsOff c
run-IsOff {c} (next r st) = Step-IsOff c (late r) st (run-IsOff r)

nonneg_of_parts : (z : ℤ) (n : ℕ) → pos_part z ≡ n + neg_part z → z ≡ pos n
nonneg_of_parts (pos m) n h = ground arith
nonneg_of_parts (negsuc m) n h = absurd (omega arith)

-- While no call has been cancelled late, the counters are exact, at most `max_concurrency` calls
-- have a slot, and at most `max_waiting` calls wait.
pub run_bounded :
    {c : Config} {s : State} (r : Run c start s)
    → late r ≡ 0
    → (s.counters.running ≡ s.in_grant + s.in_slot)
      × (s.counters.waiting ≡ pos s.in_queue)
      × (s.in_grant + s.in_slot ≤ c.max_concurrency)
      × (s.in_queue ≤ c.max_waiting)
run_bounded {c} {s} r none_late =
    let v = run-IsOff r in
    let exact : s.counters.running ≡ s.in_grant + s.in_slot = omega (arith, v.running_off) in
    (
      exact,
      nonneg_of_parts s.counters.waiting s.in_queue (omega (arith, v.waiting_off)),
      omega (arith, v.within, exact),
      omega (arith, v.queue_within),
    )

-- In a history with at least as many late cancellations as the executor has slots, no call has a
-- slot and a new call does not get one.
pub run_wedged :
    {c : Config} {s : State} (r : Run c start s)
    → c.max_concurrency ≤ late r
    → (s.in_grant ≡ 0) × (s.in_slot ≡ 0) × (enter c s.counters).0 ≢ acquired
unfolding enter
run_wedged {c} {s} r many =
    let v = run-IsOff r in
    (
      omega (arith, v.running_off, v.within),
      omega (arith, v.running_off, v.within),
      λ e. ground (arith, v.running_off, e),
    )

-- A wait within a budget that succeeds to start is bounded by what is left of the budget and by the
-- limit that applies, and the budget was not used up.
pub wait_limit-le :
    (c : Config) (wait : Option ℕ) (total elapsed : ℕ) (limit : ℕ)
    → wait_limit c wait (some total) elapsed ≡ ok (some limit)
    → (elapsed < total) × (limit ≤ total - elapsed) × ((own : ℕ) → wait ≡ some own → limit ≤ own)
unfolding wait_limit budget_left
wait_limit-le c (some t) total elapsed limit h =
    (ground arith, ground arith, λ own e. ground (arith, h, e))
wait_limit-le c none total elapsed limit h =
    (ground arith, ground arith, λ own e. ground (arith, e))
