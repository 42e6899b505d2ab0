-- ===== src/Wheel/Expire.antt =====
-- `expire` runs the tasks of the due timers, each once and the earliest first.

use exc.Common.{
  ℕ, zero, suc, ◌+◌, ◌^◌, ◌≤◌, ◌<◌, ◌≡◌, sym, ◌∙◌, List, [], ◌∷◌, none, some, arith, All, Bool,
  true, false, Bool-cases, ◌==◌, ◌&&◌, inl, inr,
}
use native.Mathlib.Decide.{dec_le}
use exc.Time.{TimeValue, gt, le, zero_time}
use exc.Time.Micros.{micros, IsTime, le-micros}
use exc.Wheel.Node.{Node}
use exc.Wheel.State.{Wheel, Run, nodes_of, is_empty, earliest_time}
use exc.Wheel.Ops.{remove_first}
use exc.Wheel.Dispatch.{settle, farewell, fire, dispatch_info_i, expire_loop, expire}
use exc.Wheel.Sorted.{time, Sorted, From, From-mono}
use exc.Wheel.Inv.{longest, Fits, Inv}
use exc.Wheel.Contents.{all_nodes}
use exc.Wheel.Remove.{Takes, remove_first_lem}
use exc.Wheel.Unique.{HasIds, lose}
use exc.Wheel.Counts.{one_if, count, count-perm}
use exc.Wheel.Settle.{
  due, before, settle-Settles, settle-HasIds, none_before, empty_counts, none_below_zero,
}

-- What a run of `expire` at `cur_time` did to the wheel `w`.
pub record Expires (cur_time : TimeValue) (w : Wheel) (fired : List Node) (w' : Wheel)
    : Type 0 where
  pub inv : Inv w'
  pub none_due : count (due cur_time) (all_nodes w'.spokes) ≡ 0
  pub in_order : Sorted fired
  pub all_due : All (λ m. time m ≤ micros cur_time) fired
  pub once :
      (p : Node → Bool) → count p fired ≡ count (λ m. p m && due cur_time m) (all_nodes w.spokes)
  pub ids : HasIds w → HasIds w'

module _ (cur_time : TimeValue) (is_time : IsTime cur_time) (bounded : micros cur_time < longest)
    (handle : Node → Wheel → Run Wheel) (stopped : Node → Bool) (ended : Node → Wheel → Run Wheel)
    (quiet : (n : Node) (w : Wheel) → handle n w ≡ some w)
    (quiet_end : (n : Node) (w : Wheel) → ended n w ≡ some w) where
  -- The loop on a wheel whose nodes have all reached `low`.
  abbrev Loops : ℕ → ℕ → Wheel → Type 0
  Loops fuel low w =
      (fired : List Node) × (w' : Wheel) × (expire_loop handle stopped ended fuel cur_time w
        ≡ some (fired, w'))
      × Expires cur_time w fired w'
      × From low fired

  idle :
      (fuel low : ℕ) (w : Wheel)
      → Inv w
      → dispatch_info_i handle stopped ended cur_time w ≡ some (none, w)
      → ((p : Node → Bool) → count (λ m. p m && due cur_time m) (all_nodes w.spokes) ≡ 0)
      → Loops (suc fuel) low w
  unfolding expire_loop
  idle fuel low w v e z = (
    [],
    w,
    rw (e, expire_loop),
    record {
      inv = v;
      none_due = z (λ _. true);
      in_order = tt;
      all_due = tt;
      once = λ p. sym (z p);
      ids = λ h. h;
    },
    tt,
  )

  farewell-quiet : (n : Node) (w : Wheel) → farewell handle stopped ended n w ≡ some w
  unfolding farewell
  farewell-quiet n w = elim (Bool-cases (gt n.interval zero_time && stopped n)) [
    | inl e ↦ rw e (quiet_end n w)
    | inr e ↦ rw e
  ]

  -- One call of `dispatch_info_i` with the earliest timer due.
  fires :
      (w w₁ : Wheel) (n : Node) {i : ℕ}
      → Inv w
      → (w.timer_count == 0) ≡ false
      → (earliest_time w ≡ n.timer_value)
      → time n ≤ micros cur_time
      → remove_first w ≡ some (some n, w₁)
      → Fits (2 ^ w.res_bits) w.spoke_count i n
      → dispatch_info_i handle stopped ended cur_time w
        ≡ some (some n, settle handle stopped ended cur_time n w₁)
  unfolding dispatch_info_i is_empty fire
  fires w w₁ n v some_left at_time l run f =
      let test = le-micros n.timer_value cur_time f.is_time is_time in
      let in_time : le n.timer_value cur_time ≡ true = ground (arith, test) in
      let called : (n.task == 0) ≡ false = let c = f.called in ground arith in
      rw (
        some_left,
        at_time,
        in_time,
        run,
        called,
        quiet n w₁,
        farewell-quiet n (settle handle stopped ended cur_time n w₁),
      )

  -- The earliest timer is due: it fires, and the loop goes on.
  go_on :
      (fuel low i : ℕ) (w w₁ : Wheel) (n : Node)
      → Inv w
      → (w.timer_count == 0) ≡ false
      → (earliest_time w ≡ n.timer_value)
      → time n ≤ micros cur_time
      → remove_first w ≡ some (some n, w₁)
      → Takes w n w₁
      → Fits (2 ^ w.res_bits) w.spoke_count i n
      → ((j : ℕ) → j < w.spoke_count → All (λ m. time n ≤ time m) (nodes_of w.spokes j))
      → count (before low) (all_nodes w.spokes) ≡ 0
      → (Inv (settle handle stopped ended cur_time n w₁)
          → count (before (time n)) (all_nodes (settle handle stopped ended cur_time n w₁).spokes)
            ≡ 0
          → count (due cur_time) (all_nodes (settle handle stopped ended cur_time n w₁).spokes) + 1
            ≡ count (due cur_time) (all_nodes w.spokes)
          → Loops fuel (time n) (settle handle stopped ended cur_time n w₁))
      → Loops (suc fuel) low w
  unfolding expire_loop
  go_on fuel low i w w₁ n v some_left at_time l run takes f least low_ok next =
      let w₂ = settle handle stopped ended cur_time n w₁ in
      let s =
        settle-Settles cur_time is_time bounded handle stopped ended n i w₁ takes.inv
          (omega (arith, takes.count, v.built.countable)) (rw (takes.same_res, takes.same_spokes) f)
          l in
      let out = λ (p : Node → Bool). count-perm p takes.rest in
      let is_due : due cur_time n ≡ true = ground arith in
      let counted : one_if (due cur_time n) ≡ 1 = rw is_due in
      let reached : low ≤ time n = low_lem (out (before low)) in
      let early = none_before w (time n) (before (time n)) v (λ m h. ground arith) least in
      let (fired, w', rest, x, from) =
        next s.inv (s.none_early (time n) l ∙ omega (arith, out (before (time n))))
          (omega (arith, s.same_due (λ _. true), out (due cur_time), counted)) in
      (
        n ∷ fired,
        w',
        rw (fires w w₁ n v some_left at_time l run f, expire_loop, rest),
        record {
          inv = x.inv;
          none_due = x.none_due;
          in_order = (from, x.in_order);
          ids = λ h.
              let (h₁, gone, own) = lose w w₁ n takes.grows h takes.rest in
              x.ids (
                settle-HasIds cur_time is_time bounded handle stopped ended n i w₁ takes.inv
                  (omega (arith, takes.count, v.built.countable))
                  (rw (takes.same_res, takes.same_spokes) f) l h₁ gone own);
          all_due = (l, x.all_due);
          once =
              λ p. omega (arith, x.once p, s.same_due p, out (λ m. p m && due cur_time m), both p);
        },
        (reached, From-mono (time n) low fired reached from),
      )
    where
      low_lem :
          count (before low) (all_nodes w.spokes)
            ≡ one_if (before low n) + count (before low) (all_nodes w₁.spokes)
          → low ≤ time n
      low_lem e = ground arith

      both : (p : Node → Bool) → one_if (p n && due cur_time n) ≡ one_if (p n)
      both p = let is_due : due cur_time n ≡ true = ground arith in rw is_due (ground arith)

  -- Nothing is due: the call answers 0.
  not_due :
      (w : Wheel) (n : Node) {i : ℕ}
      → (w.timer_count == 0) ≡ false
      → (earliest_time w ≡ n.timer_value)
      → micros cur_time < time n
      → Fits (2 ^ w.res_bits) w.spoke_count i n
      → dispatch_info_i handle stopped ended cur_time w ≡ some (none, w)
  unfolding dispatch_info_i is_empty
  not_due w n some_left at_time l f =
      let test = le-micros n.timer_value cur_time f.is_time is_time in
      let later : le n.timer_value cur_time ≡ false = ground (arith, test) in
      rw (some_left, at_time, later)

  empty :
      (w : Wheel)
      → (w.timer_count == 0) ≡ true
      → dispatch_info_i handle stopped ended cur_time w ≡ some (none, w)
  unfolding dispatch_info_i is_empty
  empty w e = rw e

  expire_loop_lem :
      (fuel low : ℕ) (w : Wheel)
      → Inv w
      → count (before low) (all_nodes w.spokes) ≡ 0
      → count (due cur_time) (all_nodes w.spokes) < fuel
      → Loops fuel low w
  expire_loop_lem zero low w v z h = absurd (omega arith)
  expire_loop_lem (suc fuel) low w v z h =
      let next = λ (t : ℕ) (u : Wheel). expire_loop_lem fuel t u in
      elim (Bool-cases (w.timer_count == 0)) [
        | inl e ↦
            idle fuel low w v (empty w e) (λ p. empty_counts w v e (λ m. p m && due cur_time m))
        | inr e ↦
            let (n, w₁, run, takes, f, at_time, least) = remove_first_lem w v (ground arith) in
            elim (dec_le (time n) (micros cur_time)) [
              | yes l ↦
                  go_on fuel low w.earliest_spoke w w₁ n v e at_time l run takes f least z
                    (λ inv early due_left. next (time n) _ inv early (omega arith))
              | no l ↦ idle fuel low w v (not_due w n e at_time (omega arith) f) (λ p.
                  none_before w (time n) (λ m. p m && due cur_time m) v
                    (λ m k. not_counted p m (omega arith)) least)
            ]
      ]
    where
      not_counted :
          (p : Node → Bool) (m : Node) → micros cur_time < time m → (p m && due cur_time m) ≡ false
      not_counted p m k = let d : due cur_time m ≡ false = ground arith in rw d (ground arith)

  -- At a time within the bounds, on a wheel that is right, with fuel for the due timers, and tasks that leave the wheel alone in both their calls, `expire` ends and meets no
  -- null pointer. It runs the tasks of exactly the due timers, each once and the earliest first;
  -- then no timer is due, and the wheel is right.
  pub expire-Expires :
      (fuel : ℕ) (w : Wheel)
      → Inv w
      → count (due cur_time) (all_nodes w.spokes) < fuel
      → (fired : List Node) × (w' : Wheel) × (expire handle stopped ended fuel cur_time w
          ≡ some (fired, w'))
        × Expires cur_time w fired w'
  unfolding expire is_empty
  expire-Expires fuel w v h = elim (Bool-cases (w.timer_count == 0)) [
    | inl e ↦ (
      [],
      w,
      rw e,
      record {
        inv = v;
        none_due = empty_counts w v e (due cur_time);
        in_order = tt;
        all_due = tt;
        once = λ p. sym (empty_counts w v e (λ m. p m && due cur_time m));
        ids = λ h. h;
      },
    )
    | inr e ↦
        let (fired, w', run, x, from) =
          expire_loop_lem fuel 0 w v (none_below_zero (all_nodes w.spokes)) h in
        (fired, w', rw e run, x)
  ]
