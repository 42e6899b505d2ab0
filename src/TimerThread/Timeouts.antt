-- ===== src/TimerThread/Timeouts.antt =====
-- A timer from addTimer to cancelTimer.
use exc.Common.{
  ℕ, ◌+◌, ◌*◌, ◌^◌, ◌<◌, ◌≡◌, refl, sym, ap, ◌∙◌, subst, arith, Bool, true, false, if◌then◌else◌,
  ◌==◌, some, ℤ, pos, pos_part, neg_part, to_u64, one_sign, Bool-cases, inl, inr,
}
use exc.Time.{TimeValue, zero_time, make, normalize, add, of_msec}
use exc.Time.Normalize.{time_laws, total-normalize-IsNormal}
use exc.Time.Micros.{IsTime, micros, of_msec-micros}
use exc.Wheel.Node.{Node}
use exc.Wheel.State.{Wheel, alloc_node, calculate_spoke}
use exc.Wheel.Ids.{to_int, max_cnt, join_id}
use exc.Wheel.Inv.{Inv, horizon, longest}
use exc.Wheel.Contents.{all_nodes}
use exc.Wheel.Counts.{count}
use exc.Wheel.Unique.{counter_of, HasIds}
use exc.Wheel.Issue.{next_of}
use exc.Wheel.Schedule.{CanSchedule, new_node}
use exc.Wheel.Lifetime.{schedule-HasIds, cancel_timer-schedule}
use exc.TimerThread.{
  TimerThread, narrow, timeout_of, add_result, add_timer, cancel_result, cancel_of,
}

normalize-IsTime :
    (t : TimeValue) → IsTime t → IsTime (normalize t) × (micros (normalize t) ≡ micros t)
normalize-IsTime t h =
    let (same, n) = total-normalize-IsNormal t in
    let f = ap pos_part same in
    let g = ap neg_part same in
    let r = normalize t in
    (
      record {
        sec_nonneg = omega (time_laws, one_sign r.sec, one_sign r.usec);
        usec_nonneg = omega (time_laws, one_sign r.sec, one_sign r.usec);
        usec_small = omega (time_laws, one_sign r.sec, one_sign r.usec);
      },
      omega (time_laws, one_sign r.sec, one_sign r.usec),
    )

-- The timeout in milliseconds as a time.
pub timeout_of-micros :
    (ms : ℕ) → IsTime (timeout_of (pos ms)) × (micros (timeout_of (pos ms)) ≡ 1000 * ms)
unfolding timeout_of make of_msec
timeout_of-micros ms =
    let (is_time, value) = of_msec-micros ms in
    let (still, same) = normalize-IsTime (of_msec (pos ms)) is_time in (still, same ∙ value)

-- An id that fits an `int` is kept.
narrow_small : (n : ℕ) → n < 2 ^ 31 → narrow (pos n) ≡ pos n
unfolding narrow to_int to_u64
narrow_small n h = ground arith

-- What addTimer needs, for a timeout of `ms` milliseconds.
pub record CanAdd (now : TimeValue) (ms : ℕ) (w : Wheel) : Type 0 where
  pub now_time : IsTime now
  pub positive : 0 < micros now + 1000 * ms
  pub bounded : micros now + 1000 * ms < horizon
  pub period_bounded : 1000 * ms < longest
  pub room : w.timer_count + 1 < 2 ^ 32
  pub unused : next_of w (calculate_spoke w (add now (timeout_of (pos ms)))) ≡ 0
  pub countable :
      counter_of w (calculate_spoke w (add now (timeout_of (pos ms)))) < max_cnt w.spoke_bits
  pub id_fits :
      join_id w.spoke_bits
        (counter_of w (calculate_spoke w (add now (timeout_of (pos ms)))))
        (calculate_spoke w (add now (timeout_of (pos ms))))
      < 2 ^ 31

interval-IsTime :
    (ms : ℕ) (repeated : Bool)
    → let i = if repeated then timeout_of (pos ms) else zero_time in
      IsTime i × (micros i ≡ (if repeated then 1000 * ms else 0))
interval-IsTime ms true = timeout_of-micros ms
interval-IsTime ms false =
    (record { sec_nonneg = refl; usec_nonneg = refl; usec_small = omega arith }, refl)

CanAdd-CanSchedule :
    (now : TimeValue) (ms : ℕ) (repeated : Bool) (w : Wheel)
    → CanAdd now ms w
    → CanSchedule now (timeout_of (pos ms)) (if repeated then timeout_of (pos ms) else zero_time) w
CanAdd-CanSchedule now ms repeated w c =
    let (is_time, value) = timeout_of-micros ms in
    let (period, length) = interval-IsTime ms repeated in
    let p = c.period_bounded in
    record {
      now_time = c.now_time;
      future = is_time;
      period = period;
      positive = rw value c.positive;
      bounded = rw value c.bounded;
      period_bounded =
          rw length
            (elim (Bool-cases repeated) [ inl e ↦ rw e p | inr e ↦ rw e (omega (arith, p)) ]);
      room = c.room;
      unused = c.unused;
      countable = c.countable;
      id_fits = c.id_fits;
    }

some_inj : {A : Type 0} {a b : A} → some a ≡ some b → a ≡ b
some_inj e = cc

-- On a queue that is right and whose ids are unique, with a node from the free list, a task, and a
-- timeout and counters in their bounds, the id among them below 2 ^ 31: what addTimer answers, once
-- narrowed to `int`, cancels that very timer in cancelTimer. The argument of the task comes back,
-- and the queue is right, with unique ids and the timers that it had before.
pub cancel_of-add_timer :
    (now : TimeValue) (task ms arg1 arg2 : ℕ) (repeated : Bool) (t : TimerThread) (w : Wheel)
    (addr : ℕ)
    → t.queue ≡ some w
    → Inv w
    → HasIds w
    → (alloc_node w).0 ≡ some addr
    → 0 < task
    → CanAdd now ms w
    → (id : ℤ) × (t' : TimerThread) × (t'' : TimerThread) × (w'' : Wheel) × (add_timer now task
          (pos ms)
          arg1
          arg2
          repeated
          t
        ≡ some (id, t'))
      × (cancel_of id t' ≡ some (some arg1, t''))
      × (t''.queue ≡ some w'')
      × Inv w''
      × HasIds w''
      × ((p : Node → Bool) → count p (all_nodes w''.spokes) ≡ count p (all_nodes w.spokes))
unfolding add_timer add_result cancel_of cancel_result
cancel_of-add_timer now task ms arg1 arg2 repeated t w addr q v h e called c =
    let tv = timeout_of (pos ms) in
    let interval = if repeated then tv else zero_time in
    let can = CanAdd-CanSchedule now ms repeated w c in
    let (_, run, _, _, _) =
      schedule-HasIds now task arg1 arg2 tv interval w addr v h e called can in
    let (id, w', w'', again, cancelled, inv, ids, same) =
      cancel_timer-schedule now task arg1 arg2 tv interval w addr v h e called can in
    let n = new_node addr task arg1 arg2 (add now tv) interval w in
    let own : n.timer_id ≡ id = ap (λ r. r.0) (some_inj (sym run ∙ again)) in
    let kept : narrow id ≡ id = subst (λ i. narrow i ≡ i) own (narrow_small _ c.id_fits) in
    let z : (task == 0) ≡ false = ground arith in
    (
      id,
      record t { queue = some w' },
      record t { queue = some w'' },
      w'',
      rw (z, q)
          (ap (λ s. add_result s t) again ∙ ap (λ i. some (i, record t { queue = some w' })) kept),
      ap (λ s. cancel_result s (record t { queue = some w' })) cancelled,
      refl,
      inv,
      ids,
      same,
    )
