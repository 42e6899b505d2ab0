-- ===== src/Wheel/Schedule.antt =====
-- `schedule_i`: the id is fresh, the timer is in the wheel with what was asked for, and the wheel
-- stays right.
use mathlib.Core.List.{Perm}
use native.Mathlib.Nat.{mod-lt}
use exc.Common.{
  ℕ, ◌+◌, ◌/◌, ◌%◌, ◌^◌, ◌<◌, ◌≡◌, sym, ap, subst, ◌∙◌, ◌∷◌, some, arith, length, false, pos,
  negsuc, length-set, eqb_ℤ,
}
use exc.FreeList
use exc.FreeList.{FreeList}
use exc.Time.{TimeValue, add}
use exc.Time.Micros.{micros, IsTime, add-micros, msec-micros}
use exc.Wheel.Node.{Node, insert, walk_back}
use exc.Wheel.State.{Wheel, nodes_of, calculate_spoke, alloc_node}
use exc.Wheel.Ids.{join_id, to_int, max_cnt, set_root}
use exc.Wheel.Ops.{link, place, schedule}
use exc.Wheel.Ticks.{tick}
use exc.Wheel.Inv.{horizon, longest, Fits, Inv}
use exc.Wheel.Contents.{all_nodes, link_at-perm, all_nodes-set}
use exc.Wheel.Unique.{counter_of, IsIssued, Grows, Grows-trans, link-Grows, IsIssued-Grows}
use exc.Wheel.Issue.{next_of, generate_timer_id_lem, same_all, set_root-Inv, set_root-Grows}
use exc.Wheel.Link.{link-Inv}
use exc.Wheel.Cancel.{relist-Inv}

-- The spoke of a time below the horizon is that of its tick.
pub calculate_spoke-tick :
    (w : Wheel) (t : TimeValue)
    → IsTime t
    → micros t < horizon
    → calculate_spoke w t ≡ tick (2 ^ w.res_bits) (micros t) % w.spoke_count
unfolding calculate_spoke
calculate_spoke-tick w t h b =
    ap (λ k. k / 2 ^ w.res_bits % w.spoke_count) (msec-micros t h ∙ omega arith)

pub link-perm :
    (n : Node) (s : ℕ) (t : TimeValue) (w : Wheel)
    → s < length w.spokes
    → Perm (all_nodes (link n s t w).spokes) (n ∷ all_nodes w.spokes)
unfolding link insert
link-perm n s t w h = all_nodes-set w.spokes s _ n h (
    link_at-perm (walk_back (nodes_of w.spokes s) t (length (nodes_of w.spokes s))) n
      (nodes_of w.spokes s))

-- What `schedule` is asked for, within the bounds of the model.
pub record CanSchedule (now future_time interval : TimeValue) (w : Wheel) : Type 0 where
  pub now_time : IsTime now
  pub future : IsTime future_time
  pub period : IsTime interval
  pub positive : 0 < micros now + micros future_time
  pub bounded : micros now + micros future_time < horizon
  pub period_bounded : micros interval < longest
  pub room : w.timer_count + 1 < 2 ^ 32
  pub unused : next_of w (calculate_spoke w (add now future_time)) ≡ 0
  pub countable : counter_of w (calculate_spoke w (add now future_time)) < max_cnt w.spoke_bits
  pub id_fits :
      join_id w.spoke_bits
        (counter_of w (calculate_spoke w (add now future_time)))
        (calculate_spoke w (add now future_time))
      < 2 ^ 31

-- The node that `schedule` links in.
abbrev pub new_node : ℕ → ℕ → ℕ → ℕ → TimeValue → TimeValue → Wheel → Node
new_node addr task act1 act2 tv interval w =
    let s = calculate_spoke w tv in
    record {
      addr = addr;
      task = task;
      act1 = act1;
      act2 = act2;
      timer_value = tv;
      interval = interval;
      timer_id = pos (join_id w.spoke_bits (counter_of w s) s);
    }

-- `w'` is `w` with one more timer.
pub record Gains (w : Wheel) (n : Node) (w' : Wheel) : Type 0 where
  pub inv : Inv w'
  pub content : Perm (all_nodes w'.spokes) (n ∷ all_nodes w.spokes)
  pub grows : Grows w w'
  pub issued : IsIssued w' n.timer_id

to_int_small : (n : ℕ) → n < 2 ^ 31 → to_int n ≡ pos n
unfolding to_int
to_int_small n h = ground arith

not_invalid : (k : ℕ) → eqb_ℤ (pos k) (negsuc 0) ≡ false
not_invalid k = ground arith

place_lem :
    (now : TimeValue) (addr task act1 act2 : ℕ) (future_time interval : TimeValue) (w : Wheel)
    → Inv w
    → 0 < task
    → CanSchedule now future_time interval w
    → let n = new_node addr task act1 act2 (add now future_time) interval w in
      (w' : Wheel) × (place addr task act1 act2 (add now future_time) interval w
        ≡ some (n.timer_id, w'))
      × Gains w n w'
unfolding place
place_lem now addr task act1 act2 future_time interval w v called can =
    let tv = add now future_time in
    let (is_time, sum) = add-micros now future_time can.now_time can.future in
    let s = calculate_spoke w tv in
    let home = calculate_spoke-tick w tv is_time (rw sum can.bounded) in
    let inside : s < w.spoke_count = rw home (mod-lt _ (omega (arith, v.built.inside))) in
    let w₁ = set_root w s (counter_of w s + 1) 0 in
    let n = new_node addr task act1 act2 tv interval w in
    let step = set_root-Grows w s (rw v.built.wide inside) inside in
    let fits : Fits (2 ^ w.res_bits) w.spoke_count s n = record {
      called = called;
      is_time = is_time;
      positive = rw sum can.positive;
      bounded = rw sum can.bounded;
      placed = sym home;
      period = can.period;
      period_bounded = can.period_bounded;
    } in
    (
      link n s tv w₁,
      rw (
        generate_timer_id_lem w s inside can.unused can.countable,
        to_int_small _ can.id_fits,
        not_invalid (join_id w.spoke_bits (counter_of w s) s),
      ),
      record {
        inv = link-Inv n s w₁ fits inside can.room (set_root-Inv w s _ 0 v);
        content =
            subst (λ l. Perm (all_nodes (link n s tv w₁).spokes) (n ∷ l)) (same_all w.spokes s _ 0)
              (link-perm n s tv w₁ (rw (length-set, v.built.wide) inside));
        grows = Grows-trans w w₁ _ step.0 (link-Grows n s tv w₁);
        issued = IsIssued-Grows w₁ _ n.timer_id (link-Grows n s tv w₁) step.1;
      },
    )

-- With a node from the free list, a task, times within the bounds of the model, and a spoke whose
-- counter has not overflowed and gives an id that fits an `int`, `schedule` meets no null pointer and
-- puts exactly one timer into the wheel, with the given task, arguments, time and period, under an id
-- made of the counter and the spoke; the wheel stays right.
pub schedule-Gains :
    (now : TimeValue) (task act1 act2 : ℕ) (future_time interval : TimeValue) (w : Wheel) (addr : ℕ)
    → Inv w
    → (alloc_node w).0 ≡ some addr
    → 0 < task
    → CanSchedule now future_time interval w
    → let n = new_node addr task act1 act2 (add now future_time) interval w in
      (w' : Wheel) × (schedule now task act1 act2 future_time interval w ≡ some (n.timer_id, w'))
      × Gains w n w'
unfolding schedule alloc_node calculate_spoke
schedule-Gains now task act1 act2 future_time interval w addr v e called can =
    let f = (FreeList.remove w.free_list).1 in
    let (w', run, g) =
      place_lem now addr task act1 act2 future_time interval (record w { free_list = f })
        (relist-Inv w f v) called
        (record {
          now_time = can.now_time;
          future = can.future;
          period = can.period;
          positive = can.positive;
          bounded = can.bounded;
          period_bounded = can.period_bounded;
          room = can.room;
          unused = can.unused;
          countable = can.countable;
          id_fits = can.id_fits;
        }) in
    (
      w',
      rw (e, schedule) run,
      record {
        inv = g.inv;
        content = g.content;
        grows = record {
          bits = g.grows.bits;
          spokes = g.grows.spokes;
          counters = g.grows.counters;
        };
        issued = g.issued;
      },
    )
