-- ===== src/TimerThread/Timely.antt =====
-- The wait of the thread lets no timer pass.
use exc.Common.{
  ℕ, ◌+◌, ◌≤◌, ◌<◌, ◌≡◌, ap, arith, Bool, true, List, [], ◌∷◌, some, All, append_empty, inl, inr,
  ◌⊎◌, pos,
}
use exc.Time.{of_msec}
use exc.Time.Micros.{IsTime, micros, of_msec-micros}
use exc.Wheel.Node.{Node}
use exc.Wheel.State.{Wheel, Run, nodes_of}
use exc.Wheel.Inv.{Inv, longest}
use exc.Wheel.Contents.{all_nodes}
use exc.Wheel.Counts.{count}
use exc.Wheel.Sorted.{time}
use exc.Wheel.Earliest.{All-map}
use exc.Wheel.Timeout.{calculate_timeout_lem}
use exc.Wheel.Settle.{due}
use exc.Wheel.Expire.{Expires, expire-Expires}
use exc.TimerThread.Loop.{Round, this_timeout, wait_micros, run_rounds}

-- One round of the thread, whose tasks leave the wheel alone. Other threads make `u`, a right wheel
-- with timers, of the wheel before the timeout is calculated, and `v`, a right wheel too, of that
-- while the thread waits; `select` returns at most `late` microseconds behind its timeout. Then the
-- wait is at most 300 milliseconds, and all timers of `v` that are due fire, in order. No timer that
-- was in the wheel when the timeout was calculated is then more than `late` behind its time, unless
-- it was due before the wait, and then there was no wait. Any timer that was due at the start of the
-- wait at the earliest, also one added during the wait, is at most `late` and 300 milliseconds
-- behind.
pub run_rounds-Expires :
    (handle : Node → Wheel → Run Wheel) (stopped : Node → Bool) (ended : Node → Wheel → Run Wheel)
    (fuel late : ℕ) (r : Round) (w u v : Wheel)
    → ((n : Node) (w : Wheel) → handle n w ≡ some w)
    → ((n : Node) (w : Wheel) → ended n w ≡ some w)
    → r.between w ≡ some u
    → r.meanwhile u ≡ some v
    → Inv u
    → Inv v
    → 0 < u.timer_count
    → r.selected ≡ true
    → IsTime r.before
    → IsTime r.after
    → micros r.after < longest
    → micros r.after ≤ micros r.before + wait_micros (this_timeout r.before u) + late
    → count (due r.after) (all_nodes v.spokes) < fuel
    → (wait_micros (this_timeout r.before u) ≤ 300000)
      × ((i : ℕ)
          → i < u.spoke_count
          → All
              (λ n. (micros r.after ≤ time n + late) ⊎ (micros r.after ≤ micros r.before + late))
              (nodes_of u.spokes i))
      × ((n : Node) → micros r.before ≤ time n → micros r.after ≤ time n + late + 300000)
      × (fired : List Node) × (w' : Wheel) × (run_rounds handle stopped ended fuel (r ∷ []) w
          ≡ some (fired, w'))
      × Expires r.after v fired w'
unfolding this_timeout run_rounds
run_rounds-Expires handle stopped ended fuel late r w u v q qe first then sound changed some_timers
      ok b a bounded wait enough =
    let (is_time, value) = of_msec-micros 300 in
    let (t, found, _, short, apart) =
      calculate_timeout_lem (of_msec (pos 300)) r.before u sound some_timers is_time b in
    let same = ap wait_micros found in
    let (fired, w', run, e) =
      expire-Expires r.after a bounded handle stopped ended q qe fuel v changed enough in
    (
      omega (arith, same, short, value),
      λ i k.
          All-map
            (λ x l. elim l [
              | inl z ↦ inr (omega (arith, wait, same, z))
              | inr z ↦ inl (omega (arith, wait, same, z))
            ])
            _ (apart i k),
      λ n k. omega (arith, same, short, value, wait),
      fired,
      w',
      rw (first, then, ok, run) (ap (λ f. some (f, w')) (append_empty fired)),
      e,
    )
