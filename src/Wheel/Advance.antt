-- ===== src/Wheel/Advance.antt =====
-- The next time of a periodic timer: the first of its periods after the current time.
use exc.Common.{ℕ, zero, suc, ◌+◌, ◌*◌, ◌≤◌, ◌<◌, ◌≡◌, Bool-cases, arith, inl, inr}
use exc.Time.{TimeValue, add, le}
use exc.Time.Micros.{micros, IsTime, add-micros, le-micros}
use exc.Wheel.Dispatch.{advance}

-- For a period of at least a microsecond, a time that is not after `cur_time` and fuel for the
-- microseconds between them, the loop ends at a whole number of periods after the time, which lies
-- after `cur_time` and at most a period after it.
pub advance_lem :
    (fuel : ℕ) (interval cur_time t : TimeValue)
    → IsTime interval
    → IsTime cur_time
    → IsTime t
    → 0 < micros interval
    → micros t ≤ micros cur_time
    → micros cur_time < micros t + fuel
    → let r = advance fuel interval cur_time t in
      (periods : ℕ) × IsTime r
      × (micros r ≡ micros t + periods * micros interval)
      × (micros cur_time < micros r)
      × (micros r ≤ micros cur_time + micros interval)
unfolding advance
advance_lem zero interval cur_time t i c h p l f = absurd (omega arith)
advance_lem (suc fuel) interval cur_time t i c h p l f =
    let (is_time, sum) = add-micros t interval h i in
    let test = le-micros (add t interval) cur_time is_time c in
    elim (Bool-cases (le (add t interval) cur_time)) [
      | inl e ↦
          let (k, r₀, r₁, r₂, r₃) =
            advance_lem fuel interval cur_time (add t interval) i c is_time p
              (ground (arith, test, sum)) (omega arith) in
          rw (e, advance) (suc k, r₀, omega arith, r₂, r₃)
      | inr e ↦ rw (e, advance) (1, is_time, omega arith, ground (arith, test), omega arith)
    ]
