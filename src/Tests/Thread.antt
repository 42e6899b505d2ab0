-- ===== src/Tests/Thread.antt =====
-- The thread of the timers, on the wheel of eight spokes.
use exc.Common.{
  ℕ, true, ◌≤◌, ◌<◌, ◌+◌, ◌⊎◌, List, [], ◌∷◌, All, ◌≡◌, refl, arith, Bool, false, some, ℤ, pos,
  ◌+ℤ◌, ◌-ℤ◌, scale, quot, to_u64,
}
use exc.FreeList.{remove, refill, take_first}
use exc.Time.{add, make, msec, normalize, carry, carry_up, carry_down, fix_sign}
use exc.Wheel.Node.{Node}
use exc.Wheel.State.{Wheel, alloc_node, calculate_spoke}
use exc.Wheel.Inv.{Inv}
use exc.Wheel.Contents.{all_nodes}
use exc.Wheel.Counts.{count}
use exc.Wheel.Unique.{HasIds}
use exc.TimerThread.{TimerThread, timeout_of, open_timer, new_timer, add_timer, cancel_of}
use exc.TimerThread.Timeouts.{CanAdd, cancel_of-add_timer}
use exc.Tests.Timers.{
  wheel, wheel_lem, now, quiet, stops, busy, busy-Inv, busier, busier-Inv, begin_first,
  begin_second, begin_first_test, begin_second_test,
}
use exc.TimerThread.Loop.{Round, this_timeout, wait_micros, run_rounds}
use exc.TimerThread.Timely.{run_rounds-Expires}
use exc.Time.Micros.{micros}
use exc.Wheel.Expire.{Expires}
use exc.Wheel.Sorted.{time}
use exc.Wheel.State.{nodes_of}

abbrev thread : TimerThread
thread = record { queue = some wheel; initialized = true; restart = false }

new_timer_test : new_timer (some wheel) ≡ thread
unfolding new_timer open_timer
new_timer_test = refl

now-CanAdd : CanAdd now 500 wheel
unfolding calculate_spoke timeout_of make add normalize carry carry_up carry_down fix_sign ◌+ℤ◌ ◌-ℤ◌
    msec scale quot to_u64
now-CanAdd = record {
  now_time = record { sec_nonneg = refl; usec_nonneg = refl; usec_small = omega arith };
  positive = omega arith;
  bounded = omega arith;
  period_bounded = omega arith;
  room = omega arith;
  unused = refl;
  countable = omega arith;
  id_fits = omega arith;
}

add_timer_example :
    (id : ℤ) × (t' : TimerThread) × (t'' : TimerThread) × (w'' : Wheel) × (add_timer now 1
        (pos 500)
        20
        30
        true
        thread
      ≡ some (id, t'))
    × (cancel_of id t' ≡ some (some 20, t''))
    × (t''.queue ≡ some w'')
    × Inv w''
    × HasIds w''
    × ((p : Node → Bool) → count p (all_nodes w''.spokes) ≡ count p (all_nodes wheel.spokes))
unfolding alloc_node remove refill take_first
add_timer_example =
    cancel_of-add_timer now 1 500 20 30 true thread wheel 3 refl wheel_lem.0 wheel_lem.1 refl
      (omega arith) now-CanAdd

-- Another thread adds a timer before the wait and one during it, and `select` comes back three seconds
-- behind its timeout.
abbrev late_round : Round
late_round = record {
  between = begin_first;
  meanwhile = begin_second;
  before = now;
  selected = true;
  after = record { sec = pos 103; usec = pos 0 };
}

rounds_example :
    (wait_micros (this_timeout now busy) ≤ 300000)
    × ((i : ℕ)
        → i < 8
        → All
            (λ n. (103000000 ≤ time n + 3000000) ⊎ (micros late_round.after ≤ micros now + 3000000))
            (nodes_of busy.spokes i))
    × ((n : Node) → 100000000 ≤ time n → 103000000 ≤ time n + 3000000 + 300000)
    × (fired : List Node) × (w' : Wheel) × (run_rounds quiet stops quiet 3 (late_round ∷ []) wheel
        ≡ some (fired, w'))
    × Expires late_round.after busier fired w'
rounds_example =
    run_rounds-Expires quiet stops quiet 3 3000000 late_round wheel busy busier (λ n w. refl)
      (λ n w. refl) begin_first_test begin_second_test busy-Inv busier-Inv (omega arith) refl
      (record { sec_nonneg = refl; usec_nonneg = refl; usec_small = omega arith })
      (record { sec_nonneg = refl; usec_nonneg = refl; usec_small = omega arith }) (omega arith)
      (omega arith) (omega arith)
