-- ===== src/Executor/Steps.antt =====
-- `BoundedExecutor.run` of app/execution/bounded.py with any number of calls in flight. A call's
-- frame is in one of three places, and the event loop chooses which frame moves. Calls are told
-- apart by their place only, since they all run the same code.
use weiquan_agent.Prelude.{ℕ, zero, suc, ◌+◌, ◌-◌, ◌≤◌, ◌<◌, ◌≡◌, true, false, arith}
use weiquan_agent.Executor.{
  ℤ, pos, negsuc, increase, decrease, at_least, Config, Counters, acquired, queued, rejected, enter,
  slot_free, take_slot, leave, fresh,
}

pub record State : Type 0 where
  pub counters : Counters
  -- Calls that wait, `wait_for_slot` not having run.
  pub in_queue : ℕ
  -- Calls whose `wait_for_slot` has run, while `run` itself has not gone on.
  pub in_grant : ℕ
  -- Calls that hold a slot, with `acquired` set.
  pub in_slot : ℕ

abbrev pub start : State
start = record { counters = fresh; in_queue = 0; in_grant = 0; in_slot = 0 }

pub data Step (c : Config) : State → State → Type 0 where
  -- A new call, by what the first block decides.
  enters_slot :
      (s : State)
      → (enter c s.counters).0 ≡ acquired
      → Step c s (record s { counters = (enter c s.counters).1; in_slot = s.in_slot + 1 })
  enters_queue :
      (s : State)
      → (enter c s.counters).0 ≡ queued
      → Step c s (record s { counters = (enter c s.counters).1; in_queue = s.in_queue + 1 })
  is_rejected :
      (s : State)
      → (enter c s.counters).0 ≡ rejected
      → Step c s (record s { counters = (enter c s.counters).1 })
  -- A waiter gets a slot; its call then goes on.
  grants :
      (s : State)
      → 0 < s.in_queue
      → slot_free c s.counters ≡ true
      → Step c s (record s {
        counters = take_slot s.counters;
        in_queue = s.in_queue - 1;
        in_grant = s.in_grant + 1;
      })
  resumes :
      (s : State)
      → 0 < s.in_grant
      → Step c s (record s { in_grant = s.in_grant - 1; in_slot = s.in_slot + 1 })
  -- A timeout, an exhausted budget or a cancellation, while the waiter has no slot.
  gives_up :
      (s : State)
      → 0 < s.in_queue
      → Step c s (record s { counters = leave true false s.counters; in_queue = s.in_queue - 1 })
  -- A cancellation that reaches `run` in its wait, after the waiter got the slot: the flags still
  -- say that the call is queued.
  cancelled_late :
      (s : State)
      → 0 < s.in_grant
      → Step c s (record s { counters = leave true false s.counters; in_grant = s.in_grant - 1 })
  -- The operation ends, by a result, an error, a timeout or a cancellation.
  finishes :
      (s : State)
      → 0 < s.in_slot
      → Step c s (record s { counters = leave false true s.counters; in_slot = s.in_slot - 1 })

pub data Run (c : Config) (s : State) : State → Type 0 where
  here : Run c s s
  next : {t u : State} → Run c s t → Step c t u → Run c s u

-- How many calls were cancelled late.
abbrev pub late_step : {c : Config} {s t : State} → Step c s t → ℕ
late_step (cancelled_late s h) = 1
late_step (enters_slot s h) = 0
late_step (enters_queue s h) = 0
late_step (is_rejected s h) = 0
late_step (grants s h g) = 0
late_step (resumes s h) = 0
late_step (gives_up s h) = 0
late_step (finishes s h) = 0

abbrev pub late : {c : Config} {s t : State} → Run c s t → ℕ
late here = 0
late (next r st) = late r + late_step st

abbrev pub pos_part : ℤ → ℕ
pos_part (pos n) = n
pos_part (negsuc n) = 0

abbrev pub neg_part : ℤ → ℕ
neg_part (pos n) = 0
neg_part (negsuc n) = suc n

pub increase_parts :
    (z : ℤ) → pos_part (increase z) + neg_part z ≡ suc (pos_part z + neg_part (increase z))
unfolding increase
increase_parts (pos n) = omega arith
increase_parts (negsuc zero) = omega arith
increase_parts (negsuc (suc n)) = omega arith

pub decrease_parts :
    (z : ℤ) → suc (pos_part (decrease z) + neg_part z) ≡ pos_part z + neg_part (decrease z)
unfolding decrease
decrease_parts (pos zero) = omega arith
decrease_parts (pos (suc n)) = omega arith
decrease_parts (negsuc n) = omega arith

-- After `lost` late cancellations `running` is that much above the calls that have a slot, and
-- `waiting` that much below the calls that wait.
pub record IsOff (c : Config) (lost : ℕ) (s : State) : Type 0 where
  pub running_off : s.counters.running ≡ s.in_grant + s.in_slot + lost
  pub waiting_off : pos_part s.counters.waiting + lost ≡ s.in_queue + neg_part s.counters.waiting
  pub within : s.counters.running ≤ c.max_concurrency
  pub queue_within : s.in_queue ≤ c.max_waiting + lost

pub Step-IsOff :
    (c : Config) (lost : ℕ) {s t : State} (st : Step c s t)
    → IsOff c lost s
    → IsOff c (lost + late_step st) t
unfolding enter slot_free take_slot leave at_least
Step-IsOff c lost (enters_slot s h) v = ground (arith)
Step-IsOff c lost (enters_queue s h) v = ground (arith, increase_parts s.counters.waiting)
Step-IsOff c lost (is_rejected s h) v = ground (arith)
Step-IsOff c lost (grants s h g) v = ground (arith, decrease_parts s.counters.waiting)
Step-IsOff c lost (resumes s h) v = ground (arith)
Step-IsOff c lost (gives_up s h) v = ground (arith, decrease_parts s.counters.waiting)
Step-IsOff c lost (cancelled_late s h) v = ground (arith, decrease_parts s.counters.waiting)
Step-IsOff c lost (finishes s h) v = ground (arith)
