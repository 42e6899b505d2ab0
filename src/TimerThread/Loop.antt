-- ===== src/TimerThread/Loop.antt =====
-- The thread of Timer: the loop of `run`, on what the clock and `select` give in each round.
-- A round in which `m_bRunning` is false is not there; the loop ends behind the last one.
use exc.Common.{ℕ, Bool, true, if◌then◌else◌, List, [], ◌∷◌, ◌++◌, Option, none, some, pos}
use exc.Time.{TimeValue, of_msec}
use exc.Time.Micros.{micros}
use exc.Wheel.Node.{Node}
use exc.Wheel.State.{Wheel, Run, ◌>>=◌}
use exc.Wheel.Dispatch.{expire, calculate_timeout}

-- A round. No lock is held from `expire` on until `calculate_timeout`, nor from there until the next
-- `expire`: `between` and `meanwhile` are what other threads do to the wheel then, with addTimer and
-- cancelTimer. The rest is the time before the wait, whether `select` succeeds, and the time behind
-- it.
pub record Round : Type 0 where
  pub between : Wheel → Run Wheel
  pub meanwhile : Wheel → Run Wheel
  pub before : TimeValue
  pub selected : Bool
  pub after : TimeValue

-- `this_timeout`, which `select` gets, from the wheel as `calculate_timeout` finds it.
unfoldable pub this_timeout : TimeValue → Wheel → Option TimeValue
this_timeout now w = calculate_timeout true (some (of_msec (pos 300))) now w

-- The same in microseconds.
abbrev pub wait_micros : Option TimeValue → ℕ
wait_micros none = 0
wait_micros (some t) = micros t

module _ (handle : Node → Wheel → Run Wheel) (stopped : Node → Bool)
    (ended : Node → Wheel → Run Wheel) (fuel : ℕ) where
  -- The timers that fire, and the wheel behind the last round.
  unfoldable pub run_rounds : List Round → Wheel → Run (List Node × Wheel)
  run_rounds [] w = some ([], w)
  run_rounds (r ∷ rs) w = r.between w >>= λ u. r.meanwhile u >>= λ v.
      if r.selected
      then (expire handle stopped ended fuel r.after v >>= λ fired.
          run_rounds rs fired.1 >>= λ rest. some (fired.0 ++ rest.0, rest.1))
      else some ([], v)
