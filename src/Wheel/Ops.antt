-- ===== src/Wheel/Ops.antt =====
-- TimerWheel: scheduling, cancelling and removing timers, and the search for the earliest spoke.
use exc.Common.{
  ℕ, zero, suc, ◌+◌, ◌-◌, ◌%◌, ◌^◌, ◌&&◌, ◌||◌, if◌then◌else◌, leb, ◌==◌, List, [], ◌∷◌, Option,
  none, some, ℤ, pos, negsuc, eqb_ℤ, get_elem?,
}
use exc.Time.{TimeValue, zero_time, lt, le, eq, add}
use exc.Wheel.Node.{Node, Spoke, insert, unlink_at}
use exc.Wheel.State.{
  Wheel, NodeRef, Run, ◌>>=◌, nodes_of, set_nodes, calculate_spoke, alloc_node, free_node, is_empty,
  get_first, earliest_time, find_node,
}
use exc.Wheel.Ids.{generate_timer_id}

-- schedule_i(n, spoke, expire); `timer_count_` is a u_int.
unfoldable pub link : Node → ℕ → TimeValue → Wheel → Wheel
unfolding is_empty lt earliest_time insert
link n s expire w = record w {
  earliest_spoke = if is_empty w || lt expire (earliest_time w) then s else w.earliest_spoke;
  timer_count = (w.timer_count + 1) % 2 ^ 32;
  spokes = set_nodes w.spokes s (insert n expire (nodes_of w.spokes s));
}

-- The rest of `schedule_i` once it has a node, for a timer at `tv`.
unfoldable pub place : ℕ → ℕ → ℕ → ℕ → TimeValue → TimeValue → Wheel → Run (ℤ × Wheel)
place addr task act1 act2 tv interval w =
    let s = calculate_spoke w tv in
    generate_timer_id w s >>= λ r.
    if eqb_ℤ r.0 (negsuc 0)
    then some (r.0, r.1)
    else some (
      r.0,
      link
          (record {
            addr = addr;
            task = task;
            act1 = act1;
            act2 = act2;
            timer_value = tv;
            interval = interval;
            timer_id = r.0;
          })
          s tv r.1,
    )

-- schedule_i(type, act1, act2, future_time, interval), `now` being `gettimeofday()`.
unfoldable pub schedule : TimeValue → ℕ → ℕ → ℕ → TimeValue → TimeValue → Wheel → Run (ℤ × Wheel)
unfolding place
schedule now task act1 act2 future_time interval w =
    let allocated = alloc_node w in
    elim allocated.0 [
      | none ↦ some (pos 0, allocated.1)
      | some addr ↦ place addr task act1 act2 (add now future_time) interval allocated.1
    ]

unfoldable pub unlink : NodeRef → Wheel → Wheel
unfolding unlink_at
unlink r w = record w {
  timer_count = (w.timer_count + 2 ^ 32 - 1) % 2 ^ 32;
  spokes = set_nodes w.spokes r.spoke (unlink_at r.index (nodes_of w.spokes r.spoke));
}

-- `if (++spoke >= spoke_count_) spoke = 0`
unfoldable pub next_spoke : ℕ → ℕ → ℕ
next_spoke count s = if leb count (s + 1) then 0 else s + 1

-- The loop of `recalc_earliest` with `rounds` to go, at spoke `s`; `et` and `es` are the earliest
-- time and its spoke so far, `limit` is `last + wheel_time_`.
unfoldable pub scan : List Spoke → ℕ → TimeValue → ℕ → ℕ → TimeValue → ℕ → ℕ
unfolding lt eq next_spoke
scan spokes count limit zero s et es = es
scan spokes count limit (suc rounds) s et es = elim (nodes_of spokes s) [
  | [] ↦ scan spokes count limit rounds (next_spoke count s) et es
  | n ∷ ns ↦
      let nearer = scan spokes count limit rounds (next_spoke count s) n.timer_value s in
      let same = scan spokes count limit rounds (next_spoke count s) et es in
      if lt n.timer_value limit
      then s
      else if eq et zero_time || lt n.timer_value et
      then nearer
      else same
]

unfoldable pub recalc_earliest : TimeValue → Wheel → Wheel
unfolding is_empty scan add
recalc_earliest last w = if is_empty w then w else record w {
  earliest_spoke =
      scan w.spokes w.spoke_count (add last w.wheel_time) w.spoke_count w.earliest_spoke zero_time
        0;
}

abbrev pub node_at : Wheel → NodeRef → Option Node
node_at w r = get_elem? (nodes_of w.spokes r.spoke) r.index

-- cancel_timer with both out parameters; the result 0 is `none`.
unfoldable pub cancel_timer : ℤ → Wheel → Run (Option (ℕ × ℕ) × Wheel)
unfolding find_node unlink free_node recalc_earliest
cancel_timer id w = elim (find_node w id) [
  | none ↦ some (none, w)
  | some r ↦ node_at w r >>= λ n.
      let recalc = r.spoke == w.earliest_spoke && r.index == 0 in
      let cancelled = free_node n (unlink r w) in
      some (
        some (n.act1, n.act2),
        if recalc then recalc_earliest n.timer_value cancelled else cancelled,
      )
]

-- `get_first` is read before the test for null.
unfoldable pub remove_first_expired : TimeValue → Wheel → Run (Option Node × Wheel)
unfolding get_first le eq unlink recalc_earliest
remove_first_expired now w = get_first w >>= λ n.
    if le n.timer_value now || eqb_ℤ now.sec (pos 0) && eqb_ℤ now.usec (pos 0)
    then some (
      some n,
      recalc_earliest n.timer_value (unlink (record { spoke = w.earliest_spoke; index = 0 }) w),
    )
    else some (none, w)

unfoldable pub remove_first : Wheel → Run (Option Node × Wheel)
unfolding remove_first_expired
remove_first w = remove_first_expired zero_time w

unfoldable pub reschedule : Node → Wheel → Wheel
unfolding calculate_spoke link
reschedule n w = link n (calculate_spoke w n.timer_value) n.timer_value w
