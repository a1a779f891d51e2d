-- ===== src/Executor/Tests.antt =====
-- Histories of one executor.
use weiquan_agent.Prelude.{◌+◌, ◌≤◌, ◌≡◌, ◌≢◌, refl, some, arith}
use weiquan_agent.Executor.{
  pos, negsuc, Config, enter, acquired, slot_free, take_slot, leave, increase, decrease, at_least,
}
use weiquan_agent.Executor.Steps.{
  State, start, Run, here, next, late, enters_slot, enters_queue, grants, cancelled_late, finishes,
}
use weiquan_agent.Executor.Leak.{run_bounded, run_wedged}

abbrev single : Config
single = record { max_concurrency = 1; max_waiting = 2; wait_timeout = some 500 }

abbrev one_waits : State
one_waits = record {
  counters = record { running = 1; waiting = pos 1 };
  in_queue = 1;
  in_grant = 0;
  in_slot = 1;
}

one_waits_run : Run single start one_waits
unfolding enter increase at_least
one_waits_run = next (next here (enters_slot start refl)) (enters_queue _ refl)

orderly : late one_waits_run ≡ 0
unfolding one_waits_run
orderly = refl

run_bounded_example :
    (one_waits.counters.running ≡ one_waits.in_grant + one_waits.in_slot)
    × (one_waits.counters.waiting ≡ pos one_waits.in_queue)
    × (one_waits.in_grant + one_waits.in_slot ≤ single.max_concurrency)
    × (one_waits.in_queue ≤ single.max_waiting)
run_bounded_example = run_bounded one_waits_run orderly

-- The first call ends, the second gets its slot, and is cancelled before it goes on.
abbrev lost : State
lost = record {
  counters = record { running = 1; waiting = negsuc 0 };
  in_queue = 0;
  in_grant = 0;
  in_slot = 0;
}

lost_run : Run single start lost
unfolding leave take_slot slot_free decrease
lost_run =
    next
      (next (next one_waits_run (finishes one_waits (omega arith))) (grants _ (omega arith) refl))
      (cancelled_late _ (omega arith))

one_lost : late lost_run ≡ 1
unfolding lost_run one_waits_run
one_lost = refl

run_wedged_example :
    (lost.in_grant ≡ 0) × (lost.in_slot ≡ 0) × (enter single lost.counters).0 ≢ acquired
run_wedged_example = run_wedged lost_run (omega (arith, one_lost))
