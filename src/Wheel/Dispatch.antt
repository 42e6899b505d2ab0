-- ===== src/Wheel/Dispatch.antt =====
-- TimerQueue: expire, dispatch_info_i and calculate_timeout.
-- What a task does is a parameter: `handle` is `handle_timeout`, which may use the wheel again
-- (the mutex is recursive), `stopped` what `is_stop_repeated` answers after it, and `ended` is
-- `handle_repeated_timer_stoped`.
use exc.Common.{
  ℕ, zero, suc, Bool, true, false, if◌then◌else◌, ◌==◌, ◌&&◌, List, [], ◌∷◌, Option, none, some,
}
use exc.Time.{TimeValue, zero_time, gt, le, add, sub}
use exc.Time.Micros.{micros}
use exc.Wheel.Node.{Node}
use exc.Wheel.State.{Wheel, Run, ◌>>=◌, is_empty, earliest_time, free_node}
use exc.Wheel.Ops.{remove_first, reschedule}

-- The do-while loop that skips the periods that have gone by, on fuel.
unfoldable pub advance : ℕ → TimeValue → TimeValue → TimeValue → TimeValue
unfolding add le
advance zero interval cur_time t = t
advance (suc fuel) interval cur_time t = elim (le (add t interval) cur_time) [
  | true ↦ advance fuel interval cur_time (add t interval)
  | false ↦ add t interval
]

-- The node with its next time. A period is at least a microsecond, which bounds the rounds.
unfoldable pub next_period : TimeValue → Node → Node
unfolding advance
next_period cur_time n = record n {
  timer_value = advance (suc (micros cur_time)) n.interval cur_time n.timer_value;
}

module _ (handle : Node → Wheel → Run Wheel) (stopped : Node → Bool)
    (ended : Node → Wheel → Run Wheel) where
  -- What becomes of the node after its task has run.
  unfoldable pub settle : TimeValue → Node → Wheel → Wheel
  settle cur_time n w =
      if gt n.interval zero_time
      then (if stopped n
          then free_node (next_period cur_time n) w
          else reschedule (next_period cur_time n) w)
      else free_node n w

  -- A periodic timer that is stopped is told so after its node is freed.
  unfoldable pub farewell : Node → Wheel → Run Wheel
  farewell n w = if gt n.interval zero_time && stopped n then ended n w else some w

  -- The task runs, unless it is the null pointer.
  unfoldable pub fire : TimeValue → Option Node × Wheel → Run (Option Node × Wheel)
  fire cur_time (none, w) = some (none, w)
  fire cur_time (some n, w) =
      if n.task == 0
      then some (none, w)
      else handle n w >>= λ w'. farewell n (settle cur_time n w') >>= λ w''. some (some n, w'')

  -- The node whose task has run; none for the result 0.
  unfoldable pub dispatch_info_i : TimeValue → Wheel → Run (Option Node × Wheel)
  dispatch_info_i cur_time w =
      if is_empty w
      then some (none, w)
      else if le (earliest_time w) cur_time
      then remove_first w >>= fire cur_time
      else some (none, w)

  -- The loop of `expire`, on fuel; the result lists the nodes in the order of their calls.
  unfoldable pub expire_loop : ℕ → TimeValue → Wheel → Run (List Node × Wheel)
  expire_loop zero cur_time w = none
  expire_loop (suc fuel) cur_time w = elim (dispatch_info_i cur_time w) [
    | none ↦ none
    | some (none, w') ↦ some ([], w')
    | some (some n, w') ↦ expire_loop fuel cur_time w' >>= λ r. some (n ∷ r.0, r.1)
  ]

  unfoldable pub expire : ℕ → TimeValue → Wheel → Run (List Node × Wheel)
  expire fuel cur_time w =
      let rest = expire_loop fuel cur_time w in if is_empty w then some ([], w) else rest

-- The smaller of the caller's wait time and the time to the earliest timer.
unfoldable pub shorter : Option TimeValue → TimeValue → TimeValue
unfolding gt
shorter none delta = delta
shorter (some m) delta = if gt m delta then delta else m

-- `wanted` is whether `the_timeout` is not null; the result is what the returned pointer shows.
unfoldable pub calculate_timeout : Bool → Option TimeValue → TimeValue → Wheel → Option TimeValue
unfolding is_empty earliest_time gt sub shorter
calculate_timeout false max_wait_time cur_time w = max_wait_time
calculate_timeout true max_wait_time cur_time w =
    if is_empty w
    then max_wait_time
    else if gt (earliest_time w) cur_time
    then some (shorter max_wait_time (sub (earliest_time w) cur_time))
    else some zero_time
