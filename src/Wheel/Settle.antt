-- ===== src/Wheel/Settle.antt =====
-- What becomes of a timer after its task has run, in `dispatch_info_i`: the wheel stays right, and the
-- timer is no longer due.
use mathlib.Core.List.{Perm}
use exc.Common.{
  ℕ, suc, ◌+◌, ◌^◌, ◌≤◌, ◌<◌, ◌≡◌, refl, sym, subst, ◌∙◌, List, [], ◌∷◌, arith, length, All, Bool,
  true, false, Bool-cases, ◌==◌, ◌&&◌, ltb, leb, inl, inr,
}
use native.Mathlib.Nat.{mod-lt}
use exc.Time.{TimeValue, gt, zero_time}
use exc.Time.Micros.{micros, IsTime, gt-micros}
use exc.Wheel.Node.{Node, Spoke}
use exc.Wheel.State.{Wheel, Run, nodes_of, free_node, calculate_spoke}
use exc.Wheel.Ops.{reschedule}
use exc.Wheel.Dispatch.{next_period, settle}
use exc.Wheel.Sorted.{time}
use exc.Wheel.Inv.{longest, Fits, Inv, total}
use exc.Wheel.Earliest.{All-map}
use exc.Wheel.Contents.{all_nodes}
use exc.Wheel.Link.{link-Inv}
use exc.Wheel.Cancel.{relist-Inv}
use exc.Wheel.Schedule.{calculate_spoke-tick, link-perm}
use exc.Wheel.Unique.{
  Grows, HasIds, IsIssued, has_id, count-zero-All, link-Grows, gain, IsIssued-Grows,
}
use exc.Wheel.Counts.{one_if, count, count-append, count-perm}
use exc.Wheel.Advance.{advance_lem}

-- Not later than `cur_time`.
abbrev pub due : TimeValue → Node → Bool
due cur_time n = leb (time n) (micros cur_time)

-- Earlier than a number of microseconds.
abbrev pub before : ℕ → Node → Bool
before t n = ltb (time n) t

module _ (cur_time : TimeValue) (is_time : IsTime cur_time)
    (bounded : micros cur_time < longest) where
  next_period_lem :
      (n : Node)
      → IsTime n.timer_value
      → IsTime n.interval
      → 0 < micros n.interval
      → time n ≤ micros cur_time
      → let m = next_period cur_time n in
        IsTime m.timer_value
        × (micros cur_time < time m)
        × (time m ≤ micros cur_time + micros n.interval)
  unfolding next_period
  next_period_lem n h i p l =
      let (k, r₀, r₁, r₂, r₃) =
        advance_lem (suc (micros cur_time)) n.interval cur_time n.timer_value i is_time h p l
          (omega arith) in
      (r₀, r₂, r₃)

  -- A timer that is rescheduled is no longer due.
  reschedule_lem :
      (n : Node) (i : ℕ) (w : Wheel)
      → Inv w
      → w.timer_count + 1 < 2 ^ 32
      → Fits (2 ^ w.res_bits) w.spoke_count i n
      → 0 < micros n.interval
      → time n ≤ micros cur_time
      → let m = next_period cur_time n in
        let w' = reschedule m w in
        Inv w' × Perm (all_nodes w'.spokes) (m ∷ all_nodes w.spokes) × (micros cur_time < time m)
  unfolding reschedule
  reschedule_lem n i w v room f p l =
      let m = next_period cur_time n in
      let (m_time, later, near) = next_period_lem n f.is_time f.period p l in
      let b = f.period_bounded in
      let home = calculate_spoke-tick w m.timer_value m_time (omega arith) in
      let s = calculate_spoke w m.timer_value in
      let inside : s < w.spoke_count = rw home (mod-lt _ (omega (arith, v.built.inside))) in
      let fits : Fits (2 ^ w.res_bits) w.spoke_count s m = record {
        called = unfold next_period in f.called;
        is_time = m_time;
        positive = omega arith;
        bounded = omega arith;
        placed = sym home;
        period = unfold next_period in f.period;
        period_bounded = unfold next_period in f.period_bounded;
      } in
      (
        link-Inv m s w fits inside room v,
        link-perm m s m.timer_value w (rw v.built.wide inside),
        later,
      )

  module _ (handle : Node → Wheel → Run Wheel) (stopped : Node → Bool)
      (ended : Node → Wheel → Run Wheel) where
    -- What one settled timer leaves: the wheel is right, and as many timers are due or early.
    pub record Settles (w w' : Wheel) : Type 0 where
      pub inv : Inv w'
      pub same_due :
          (p : Node → Bool)
          → count (λ m. p m && due cur_time m) (all_nodes w'.spokes)
            ≡ count (λ m. p m && due cur_time m) (all_nodes w.spokes)
      pub none_early :
          (t : ℕ)
          → t ≤ micros cur_time
          → count (before t) (all_nodes w'.spokes) ≡ count (before t) (all_nodes w.spokes)

    free-Settles : (n : Node) (w : Wheel) → Inv w → Settles w (free_node n w)
    unfolding free_node
    free-Settles n w v = record {
      inv = relist-Inv w _ v;
      same_due = λ p. refl;
      none_early = λ t l. refl;
    }

    period-Settles :
        (n : Node) (i : ℕ) (w : Wheel)
        → Inv w
        → w.timer_count + 1 < 2 ^ 32
        → Fits (2 ^ w.res_bits) w.spoke_count i n
        → 0 < micros n.interval
        → time n ≤ micros cur_time
        → Settles w (reschedule (next_period cur_time n) w)
    period-Settles n i w v room f p l =
        let (inv, perm, later) = reschedule_lem n i w v room f p l in
        record {
          inv = inv;
          same_due =
              λ q. count-perm (λ m. q m && due cur_time m) perm ∙ not_counted _ (ground arith);
          none_early = λ t k. count-perm (before t) perm ∙ not_counted _ (ground arith);
        }
      where
        not_counted : (b : Bool) {k : ℕ} → b ≡ false → one_if b + k ≡ k
        not_counted b {k} e = rw e (omega arith)

    pub settle-Settles :
        (n : Node) (i : ℕ) (w : Wheel)
        → Inv w
        → w.timer_count + 1 < 2 ^ 32
        → Fits (2 ^ w.res_bits) w.spoke_count i n
        → time n ≤ micros cur_time
        → Settles w (settle handle stopped ended cur_time n w)
    unfolding settle
    settle-Settles n i w v room f l =
        let test = gt-micros n.interval zero_time f.period (omega arith) in
        elim (Bool-cases (gt n.interval zero_time)) [
          | inl e ↦ elim (Bool-cases (stopped n)) [
            | inl d ↦ rw (e, d) (free-Settles (next_period cur_time n) w v)
            | inr d ↦ rw (e, d) (period-Settles n i w v room f (ground (arith, test)) l)
          ]
          | inr e ↦ rw e (free-Settles n w v)
        ]

-- The free list is no part of what the ids are read from.
free-HasIds : (n : Node) (w : Wheel) → HasIds w → HasIds (free_node n w)
unfolding free_node
free-HasIds n w h = record { sized = h.sized; issued = h.issued; once = h.once }

reschedule-Grows : (n : Node) (w : Wheel) → Grows w (reschedule n w)
unfolding reschedule
reschedule-Grows n w = link-Grows n (calculate_spoke w n.timer_value) n.timer_value w

same_id : (cur_time : TimeValue) (n : Node) → (next_period cur_time n).timer_id ≡ n.timer_id
unfolding next_period
same_id cur_time n = refl

module _ (cur_time : TimeValue) (is_time : IsTime cur_time) (bounded : micros cur_time < longest)
    (handle : Node → Wheel → Run Wheel) (stopped : Node → Bool)
    (ended : Node → Wheel → Run Wheel) where
  -- A timer that is out and comes back does so under its own id.
  pub settle-HasIds :
      (n : Node) (i : ℕ) (w : Wheel)
      → Inv w
      → w.timer_count + 1 < 2 ^ 32
      → Fits (2 ^ w.res_bits) w.spoke_count i n
      → time n ≤ micros cur_time
      → HasIds w
      → count (has_id n.timer_id) (all_nodes w.spokes) ≡ 0
      → IsIssued w n.timer_id
      → HasIds (settle handle stopped ended cur_time n w)
  unfolding settle
  settle-HasIds n i w v room f l h out own =
      let test = gt-micros n.interval zero_time f.period (omega arith) in
      let m = next_period cur_time n in
      let e = same_id cur_time n in
      let grows = reschedule-Grows m w in
      elim (Bool-cases (gt n.interval zero_time)) [
        | inl a ↦ elim (Bool-cases (stopped n)) [
          | inl d ↦ rw (a, d) (free-HasIds m w h)
          | inr d ↦
              let (_, perm, _) =
                reschedule_lem cur_time is_time bounded n i w v room f (ground (arith, test)) l in
              rw (a, d)
                (gain w (reschedule m w) m grows h
                  (subst (λ k. count (has_id k) (all_nodes w.spokes) ≡ 0) (sym e) out)
                  (subst (IsIssued (reschedule m w)) (sym e)
                    (IsIssued-Grows w (reschedule m w) n.timer_id grows own))
                  perm)
        ]
        | inr a ↦ rw a (free-HasIds n w h)
      ]

count-le-total : (p : Node → Bool) (spokes : List Spoke) → count p (all_nodes spokes) ≤ total spokes
count-le-total p [] = omega arith
count-le-total p (s ∷ ss) =
    omega (arith, count-append p s.nodes (all_nodes ss), count-le s.nodes, count-le-total p ss)
  where
    count-le : (xs : List Node) → count p xs ≤ length xs
    count-le [] = omega arith
    count-le (x ∷ xs) = ground (arith, count-le xs)

-- Nothing in the wheel is before a time that all its nodes have reached.
pub none_before :
    (w : Wheel) (t : ℕ) (p : Node → Bool)
    → Inv w
    → ((m : Node) → t ≤ time m → p m ≡ false)
    → ((i : ℕ) → i < w.spoke_count → All (λ m. t ≤ time m) (nodes_of w.spokes i))
    → count p (all_nodes w.spokes) ≡ 0
none_before w t p v f h =
    count-zero-All p w.spokes (λ i k. All-map f _ (h i (omega (arith, v.built.wide))))

pub empty_counts :
    (w : Wheel)
    → Inv w
    → (w.timer_count == 0) ≡ true
    → (p : Node → Bool) → count p (all_nodes w.spokes) ≡ 0
empty_counts w v e p =
    let c = count-le-total p w.spokes in
    let t : w.timer_count ≡ 0 = ground arith in omega (arith, v.built.counted)

pub none_below_zero : (ns : List Node) → count (before 0) ns ≡ 0
none_below_zero [] = refl
none_below_zero (n ∷ ns) = ground (arith, none_below_zero ns)
