-- ===== src/Tests/Timers.antt =====
-- A wheel of eight spokes with one or two timers in it.
use exc.Common.{
  ℕ, ◌*◌, ◌^◌, ◌≤◌, ◌+◌, ◌⊎◌, ◌<◌, ◌≡◌, refl, sym, ap, ◌∙◌, subst, arith, Option, some, List, [],
  ◌∷◌, All, Bool, false, true, ℤ, pos, negsuc, ◌+ℤ◌, ◌-ℤ◌, scale, quot, to_u64,
}
use exc.Time.{
  TimeValue, zero_time, add, msec, of_msec, normalize, carry, carry_up, carry_down, fix_sign,
}
use exc.Time.Micros.{micros, IsTime}
use exc.FreeList
use exc.FreeList.{
  FreeList, with_pool, is_pure, alloc, push_new, resize, dealloc, drop_first, remove, refill,
  take_first,
}
use exc.FreeList.Laws.{IsSound, new-IsSound}
use exc.Wheel.Node.{Node, Spoke, insert, walk_back, link_at}
use exc.Wheel.Sizing.{power2bits, count_bits, nearest_bits, gap}
use exc.Wheel.State.{
  find_node, Wheel, Run, ◌>>=◌, new, make_roots, nodes_of, alloc_node, earliest_time,
  calculate_spoke, is_empty,
}
use exc.Wheel.Find.{Tells, find_node-Tells}
use exc.Wheel.Contents.{all_nodes}
use exc.Wheel.Counts.{count}
use exc.Wheel.Unique.{HasIds, has_id}
use exc.Wheel.Lifetime.{schedule-HasIds, cancel_timer-schedule}
use exc.Wheel.Inv.{Inv, Fits}
use exc.Wheel.Sorted.{time}
use exc.Wheel.Dispatch.{expire, calculate_timeout}
use exc.Wheel.Timeout.{calculate_timeout_lem}
use exc.Wheel.Expire.{Expires, expire-Expires}
use exc.Wheel.Create.{IsFresh, new-Inv}
use exc.Wheel.Ops.{schedule, place, link, cancel_timer, remove_first}
use exc.Wheel.Ids.{generate_timer_id, choose_id, reset_next, to_int}
use exc.Wheel.Schedule.{CanSchedule, Gains, new_node, schedule-Gains}
use exc.Wheel.Cancel.{Cancels, cancel_timer-Cancels}
use exc.Wheel.Remove.{Takes, remove_first_lem}

abbrev pool : FreeList
pool = record {
  mode = with_pool;
  free_list = 2 ∷ 1 ∷ 0 ∷ [];
  lwm = 0;
  hwm = 100;
  inc = 2;
  size = 3;
  fresh = 3;
  deleted = [];
}

pool-IsSound : IsSound pool
unfolding FreeList.new alloc push_new
pool-IsSound = (new-IsSound with_pool 3 0 100 2 0).0

abbrev root_at : ℕ → Spoke
root_at k = record { root = k; counter = 0; next_cnt = 0; nodes = [] }

abbrev pub wheel : Wheel
wheel = record {
  spokes =
      root_at 11
      ∷ root_at 10
      ∷ root_at 9
      ∷ root_at 8
      ∷ root_at 7
      ∷ root_at 6
      ∷ root_at 5
      ∷ root_at 4
      ∷ [];
  spoke_count = 8;
  spoke_bits = 3;
  res_bits = 7;
  earliest_spoke = 0;
  wheel_time = record { sec = pos 0; usec = pos 128000 };
  timer_count = 0;
  free_list = record pool { free_list = 3 ∷ 2 ∷ 1 ∷ 0 ∷ []; size = 4; fresh = 12 };
}

new_test : new 8 100 4 pool ≡ some wheel
unfolding new make_roots resize alloc push_new remove refill take_first power2bits count_bits
    nearest_bits gap of_msec scale quot ◌-ℤ◌
new_test = refl

-- What holds of the result of a run holds of the wheel that the run is known to give.
of_run {ℓ} :
    {A : Type 0} (P : A → Type ℓ) (o : Option A) (a b : A) → o ≡ some a → o ≡ some b → P a → P b
of_run P o a b e f p = subst P (same (sym e ∙ f)) p
  where
    same : some a ≡ some b → a ≡ b
    same e = cc

new-Inv_example :
    (w : Wheel) × (bits : ℕ) × (res_bits : ℕ) × (new 8 100 4 pool ≡ some w)
    × Inv w
    × (w.timer_count ≡ 0)
    × All IsFresh w.spokes
    × (power2bits 8 3 12 ≡ some bits)
    × (power2bits 100 1 20 ≡ some res_bits)
    × ((3 ≤ bits) × (bits ≤ 12))
    × ((1 ≤ res_bits) × (res_bits ≤ 20))
    × (w.spoke_count ≡ 2 ^ bits)
    × (micros w.wheel_time ≡ 1000 * 2 ^ res_bits)
    × HasIds w
new-Inv_example = new-Inv 8 100 4 pool pool-IsSound refl (omega arith) (omega arith) (omega arith)

pub wheel_lem : Inv wheel × HasIds wheel
wheel_lem =
    let (w, _, _, run, v, _, _, _, _, _, _, _, _, ids) =
      new-Inv 8 100 4 pool pool-IsSound refl (omega arith) (omega arith) (omega arith) in
    of_run (λ w. Inv w × HasIds w) (new 8 100 4 pool) w wheel run new_test (v, ids)

wheel-Inv : Inv wheel
wheel-Inv = wheel_lem.0

abbrev pub now : TimeValue
now = record { sec = pos 100; usec = pos 0 }

abbrev half : TimeValue
half = record { sec = pos 0; usec = pos 500000 }

abbrev one : TimeValue
one = record { sec = pos 1; usec = pos 0 }

at-IsTime : (s u : ℕ) → u < 1000000 → IsTime (record { sec = pos s; usec = pos u })
at-IsTime s u h = record { sec_nonneg = refl; usec_nonneg = refl; usec_small = h }

now_can : CanSchedule now half one wheel
unfolding calculate_spoke add normalize carry carry_up carry_down fix_sign ◌+ℤ◌ ◌-ℤ◌ msec scale quot
    to_u64
now_can = record {
  now_time = at-IsTime 100 0 (omega arith);
  future = at-IsTime 0 500000 (omega arith);
  period = at-IsTime 1 0 (omega arith);
  positive = omega arith;
  bounded = omega arith;
  period_bounded = omega arith;
  room = omega arith;
  unused = refl;
  countable = omega arith;
  id_fits = omega arith;
}

schedule_example :
    let n = new_node 3 1 20 30 (add now half) one wheel in
    (w' : Wheel) × (schedule now 1 20 30 half one wheel ≡ some (n.timer_id, w')) × Gains wheel n w'
unfolding alloc_node remove refill take_first
schedule_example = schedule-Gains now 1 20 30 half one wheel 3 wheel-Inv refl (omega arith) now_can

-- The timer has the id of its spoke, 1, and a time half a second on.
abbrev timer : Node
timer = record {
  addr = 3;
  task = 1;
  act1 = 20;
  act2 = 30;
  timer_value = record { sec = pos 100; usec = pos 500000 };
  interval = one;
  timer_id = pos 1;
}

abbrev pub busy : Wheel
busy = record wheel {
  spokes =
      root_at 11
      ∷ record { root = 10; counter = 1; next_cnt = 0; nodes = timer ∷ [] }
      ∷ root_at 9
      ∷ root_at 8
      ∷ root_at 7
      ∷ root_at 6
      ∷ root_at 5
      ∷ root_at 4
      ∷ [];
  earliest_spoke = 1;
  timer_count = 1;
  free_list = record pool { free_list = 2 ∷ 1 ∷ 0 ∷ []; size = 3; fresh = 12 };
}

schedule_test : schedule now 1 20 30 half one wheel ≡ some (pos 1, busy)
unfolding schedule place link alloc_node remove refill take_first calculate_spoke add normalize
    carry carry_up carry_down fix_sign ◌+ℤ◌ ◌-ℤ◌ msec scale quot to_u64 generate_timer_id choose_id
    reset_next to_int is_empty insert walk_back link_at
schedule_test = refl

pub busy-Inv : Inv busy
unfolding alloc_node remove refill take_first
busy-Inv =
    let (w, run, g) =
      schedule-Gains now 1 20 30 half one wheel 3 wheel-Inv refl (omega arith) now_can in
    of_run (λ r. Inv r.1) (schedule now 1 20 30 half one wheel) (_, w) (pos 1, busy) run
      schedule_test g.inv

-- A second timer of the same spoke, a revolution later.
abbrev second_timer : Node
second_timer = record timer {
  addr = 2;
  timer_value = record { sec = pos 101; usec = pos 524000 };
  timer_id = pos 9;
  interval = zero_time;
}

-- What another thread does: it schedules that timer, and here is the wheel behind it.
abbrev later : TimeValue
later = record { sec = pos 1; usec = pos 524000 }

abbrev pub begin_first : Wheel → Run Wheel
begin_first w = schedule now 1 20 30 half one w >>= λ r. some r.1

abbrev pub begin_second : Wheel → Run Wheel
begin_second w = schedule now 1 20 30 later zero_time w >>= λ r. some r.1

abbrev pub busier : Wheel
busier = record wheel {
  spokes =
      root_at 11
      ∷ record { root = 10; counter = 2; next_cnt = 0; nodes = timer ∷ second_timer ∷ [] }
      ∷ root_at 9
      ∷ root_at 8
      ∷ root_at 7
      ∷ root_at 6
      ∷ root_at 5
      ∷ root_at 4
      ∷ [];
  earliest_spoke = 1;
  timer_count = 2;
  free_list = record pool { free_list = 1 ∷ 0 ∷ []; size = 2; fresh = 12 };
}

second_test : schedule now 1 20 30 later zero_time busy ≡ some (pos 9, busier)
unfolding schedule place link alloc_node remove refill take_first calculate_spoke add normalize
    carry carry_up carry_down fix_sign ◌+ℤ◌ ◌-ℤ◌ msec scale quot to_u64 generate_timer_id choose_id
    reset_next to_int is_empty insert walk_back link_at
second_test = refl

pub begin_first_test : begin_first wheel ≡ some busy
begin_first_test = ap (λ o. o >>= λ r. some r.1) schedule_test

pub begin_second_test : begin_second busy ≡ some busier
begin_second_test = ap (λ o. o >>= λ r. some r.1) second_test

second_can : CanSchedule now later zero_time busy
unfolding calculate_spoke add normalize carry carry_up carry_down fix_sign ◌+ℤ◌ ◌-ℤ◌ msec scale quot
    to_u64
second_can = record {
  now_time = at-IsTime 100 0 (omega arith);
  future = at-IsTime 1 524000 (omega arith);
  period = at-IsTime 0 0 (omega arith);
  positive = omega arith;
  bounded = omega arith;
  period_bounded = omega arith;
  room = omega arith;
  unused = refl;
  countable = omega arith;
  id_fits = omega arith;
}

pub busier-Inv : Inv busier
unfolding alloc_node remove refill take_first
busier-Inv =
    let (w, run, g) =
      schedule-Gains now 1 20 30 later zero_time busy 2 busy-Inv refl (omega arith) second_can in
    of_run (λ r. Inv r.1) (schedule now 1 20 30 later zero_time busy) (_, w) (pos 9, busier) run
      second_test g.inv

find_node-Tells_example : Tells busier (pos 9) (λ i. i < 8) (find_node busier (pos 9))
find_node-Tells_example =
    find_node-Tells busier (pos 9) (omega arith) (λ e. let q = ap is_known e in cc)
  where
    is_known : ℤ → Bool
    is_known (pos n) = true
    is_known (negsuc n) = false

cancel_example : Cancels (pos 1) busy (cancel_timer (pos 1) busy)
cancel_example = cancel_timer-Cancels (pos 1) busy busy-Inv (λ e. let q = ap not_neg e in cc)
  where
    not_neg : ℤ → Bool
    not_neg (pos n) = true
    not_neg (negsuc n) = false

remove_example :
    (n : Node) × (w' : Wheel) × (remove_first busy ≡ some (some n, w'))
    × Takes busy n w'
    × Fits (2 ^ 7) 8 1 n
    × (earliest_time busy ≡ n.timer_value)
    × ((i : ℕ) → i < 8 → All (λ m. time n ≤ time m) (nodes_of busy.spokes i))
remove_example = remove_first_lem busy busy-Inv (omega arith)

second-Fits : Fits (2 ^ 7) 8 1 second_timer
second-Fits = record {
  called = omega arith;
  is_time = at-IsTime 101 524000 (omega arith);
  positive = omega arith;
  bounded = omega arith;
  placed = refl;
  period = at-IsTime 0 0 (omega arith);
  period_bounded = omega arith;
}

abbrev pub quiet : Node → Wheel → Run Wheel
quiet n w = some w

abbrev pub stops : Node → Bool
stops n = false

expire_example :
    (fired : List Node) × (w' : Wheel) × (expire quiet stops quiet 2
        (record { sec = pos 103; usec = pos 0 })
        busy
      ≡ some (fired, w'))
    × Expires (record { sec = pos 103; usec = pos 0 }) busy fired w'
expire_example =
    expire-Expires (record { sec = pos 103; usec = pos 0 }) (at-IsTime 103 0 (omega arith))
      (omega arith) quiet stops quiet (λ n w. refl) (λ n w. refl) 2 busy busy-Inv (omega arith)

timeout_example :
    (t : TimeValue) × (calculate_timeout true (some one) now busy ≡ some t)
    × IsTime t
    × (micros t ≤ micros one)
    × ((i : ℕ)
        → i < 8
        → All (λ n. (micros t ≡ 0) ⊎ (micros now + micros t ≤ time n)) (nodes_of busy.spokes i))
timeout_example =
    calculate_timeout_lem one now busy busy-Inv (omega arith) (at-IsTime 1 0 (omega arith))
      (at-IsTime 100 0 (omega arith))

schedule-HasIds_example :
    let n = new_node 3 1 20 30 (add now half) one wheel in
    (w' : Wheel) × (schedule now 1 20 30 half one wheel ≡ some (n.timer_id, w'))
    × Gains wheel n w'
    × HasIds w'
    × (count (has_id n.timer_id) (all_nodes wheel.spokes) ≡ 0)
unfolding alloc_node remove refill take_first
schedule-HasIds_example =
    schedule-HasIds now 1 20 30 half one wheel 3 wheel-Inv wheel_lem.1 refl (omega arith) now_can

cancel_timer-schedule_example :
    (id : ℤ) × (w' : Wheel) × (w'' : Wheel) × (schedule now 1 20 30 half one wheel ≡ some (id, w'))
    × (cancel_timer id w' ≡ some (some (20, 30), w''))
    × Inv w''
    × HasIds w''
    × ((p : Node → Bool) → count p (all_nodes w''.spokes) ≡ count p (all_nodes wheel.spokes))
unfolding alloc_node remove refill take_first
cancel_timer-schedule_example =
    cancel_timer-schedule now 1 20 30 half one wheel 3 wheel-Inv wheel_lem.1 refl (omega arith)
      now_can
