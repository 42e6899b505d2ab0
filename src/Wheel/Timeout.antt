-- ===== src/Wheel/Timeout.antt =====
-- How long the thread of the timers may wait: `calculate_timeout`.
use exc.Common.{
  ℕ, ◌+◌, ◌≤◌, ◌<◌, ◌≡◌, refl, ap, arith, true, false, Bool-cases, inl, inr, ◌⊎◌, All, some, ◌==◌,
  one_sign, pos_part, neg_part,
}
use exc.Time.{TimeValue, zero_time, sub, gt}
use exc.Time.Normalize.{time_laws}
use exc.Time.Arith.{arith_total}
use exc.Time.Micros.{micros, IsTime, gt-micros}
use exc.Wheel.State.{Wheel, nodes_of, is_empty}
use exc.Wheel.Dispatch.{shorter, calculate_timeout}
use exc.Wheel.Sorted.{time}
use exc.Wheel.Earliest.{All-map}
use exc.Wheel.Inv.{Inv, earliest_lem}

sub-micros :
    (a b : TimeValue)
    → IsTime a
    → IsTime b
    → micros b ≤ micros a
    → IsTime (sub a b) × (micros (sub a b) + micros b ≡ micros a)
sub-micros a b h k l =
    let difference = (arith_total a b).1 in
    let f = ap pos_part difference.0 in
    let g = ap neg_part difference.0 in
    let n = difference.1 in
    let r = sub a b in
    (
      record {
        sec_nonneg = omega (time_laws, one_sign r.sec, one_sign r.usec);
        usec_nonneg = omega (time_laws, one_sign r.sec, one_sign r.usec);
        usec_small = omega (time_laws, one_sign r.sec, one_sign r.usec);
      },
      omega (time_laws, one_sign r.sec, one_sign r.usec),
    )

shorter_lem :
    (m d : TimeValue)
    → IsTime m
    → IsTime d
    → IsTime (shorter (some m) d)
      × (micros (shorter (some m) d) ≤ micros m)
      × (micros (shorter (some m) d) ≤ micros d)
unfolding shorter
shorter_lem m d h k =
    let test = gt-micros m d h k in
    elim (Bool-cases (gt m d)) [
      | inl e ↦ rw e (k, ground (arith, test), omega arith)
      | inr e ↦ rw e (h, omega arith, ground (arith, test))
    ]

-- In a wheel with timers the wait is at most the caller's, and it ends before the time of every
-- timer, or is zero, as it is where a timer is due.
pub calculate_timeout_lem :
    (max_wait_time cur_time : TimeValue) (w : Wheel)
    → Inv w
    → 0 < w.timer_count
    → IsTime max_wait_time
    → IsTime cur_time
    → (t : TimeValue) × (calculate_timeout true (some max_wait_time) cur_time w ≡ some t)
      × IsTime t
      × (micros t ≤ micros max_wait_time)
      × ((i : ℕ)
          → i < w.spoke_count
          → All (λ n. (micros t ≡ 0) ⊎ (micros cur_time + micros t ≤ time n)) (nodes_of w.spokes i))
unfolding calculate_timeout is_empty
calculate_timeout_lem m c w v h p q =
    let (n, ns, e) = earliest_lem w v h in
    let f : (w.timer_count == 0) ≡ false = ground arith in
    let test = gt-micros n.timer_value c e.fit.is_time q in
    elim (Bool-cases (gt n.timer_value c)) [
      | inl g ↦
          let (d_time, d) = sub-micros n.timer_value c e.fit.is_time q (ground (arith, test)) in
          let (t_time, le_max, le_d) = shorter_lem m (sub n.timer_value c) p d_time in
          (
            shorter (some m) (sub n.timer_value c),
            rw (f, e.at_time, g),
            t_time,
            le_max,
            λ i k. All-map (λ x l. inr (omega arith)) _ (e.least i k),
          )
      | inr g ↦ (
        zero_time,
        rw (f, e.at_time, g),
        record { sec_nonneg = refl; usec_nonneg = refl; usec_small = omega arith },
        omega arith,
        λ i k. All-map (λ x l. inl refl) _ (e.least i k),
      )
    ]
