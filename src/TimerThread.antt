-- ===== src/TimerThread.antt =====
-- comLib/dhntimer/DHNTimer_T.h: Timer, the thread of a timer queue: what its users call.
pub mod Timeouts
pub mod Loop
pub mod Timely
use exc.Common.{
  ℕ, ◌+◌, ◌-◌, ◌≡◌, Bool, true, false, if◌then◌else◌, ◌==◌, Option, none, some, ℤ, pos, negsuc,
  quot, scale, ◌-ℤ◌, to_u64,
}
use exc.Time.{TimeValue, zero_time, make}
use exc.Wheel.State.{Wheel, Run}
use exc.Wheel.Ids.{to_int}
use exc.Wheel.Ops.{schedule, cancel_timer}

-- `m_pTimerQueue`, none for NULL, `initialized_` and `restart_`.
pub record TimerThread : Type 0 where
  pub queue : Option Wheel
  pub initialized : Bool
  pub restart : Bool

-- open
unfoldable pub open_timer : Bool → Option Wheel → TimerThread → ℤ × TimerThread
open_timer restart queue t =
    if t.initialized
    then (negsuc 0, t)
    else (pos 0, record { queue = queue; initialized = true; restart = restart })

-- The constructor, which opens.
unfoldable pub new_timer : Option Wheel → TimerThread
unfolding open_timer
new_timer queue =
    (open_timer false queue (record { queue = none; initialized = false; restart = false })).1

-- What `int` keeps of a `long`.
unfoldable pub narrow : ℤ → ℤ
narrow id = to_int (to_u64 id)

-- `nSecond` and `nUSecond`, and the time of both.
unfoldable pub timeout_of : ℤ → TimeValue
timeout_of timeout =
    let seconds = quot timeout 1000 in make seconds (scale 1000 (timeout -ℤ scale 1000 seconds))

-- The answer of `schedule`, narrowed, and the queue that it leaves.
unfoldable pub add_result : Run (ℤ × Wheel) → TimerThread → Run (ℤ × TimerThread)
add_result none t = none
add_result (some r) t = some (narrow r.0, record t { queue = some r.1 })

-- addTimer; the clock is read in `schedule`.
unfoldable pub add_timer : TimeValue → ℕ → ℤ → ℕ → ℕ → Bool → TimerThread → Run (ℤ × TimerThread)
unfolding add_result
add_timer now task timeout arg1 arg2 repeated t =
    if task == 0 then some (negsuc 0, t) else elim t.queue [
      | none ↦ some (negsuc 1, t)
      | some w ↦
          let tv = timeout_of timeout in
          let interval = if repeated then tv else zero_time in
          add_result (schedule now task arg1 arg2 tv interval w) t
    ]

-- cancelTimer, which has no result; the first argument of the task comes back by `act`.
unfoldable pub cancel_result :
    Run (Option (ℕ × ℕ) × Wheel) → TimerThread → Run (Option ℕ × TimerThread)
cancel_result none t = none
cancel_result (some (none, w)) t = some (none, record t { queue = some w })
cancel_result (some (some a, w)) t = some (some a.0, record t { queue = some w })

unfoldable pub cancel_of : ℤ → TimerThread → Run (Option ℕ × TimerThread)
unfolding cancel_result
cancel_of id t = elim t.queue [
  | none ↦ some (none, t)
  | some w ↦ cancel_result (cancel_timer id w) t
]
