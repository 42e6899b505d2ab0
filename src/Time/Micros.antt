-- ===== src/Time/Micros.antt =====
-- The times that the timers hold are not negative: each is then one number of microseconds.
use exc.Common.{
  ℕ, ◌≡◌, ◌<◌, ◌+◌, ◌*◌, ◌/◌, ◌%◌, ◌^◌, refl, ap, arith, ltb, leb, ◌==◌, pos, pos_part, neg_part,
  one_sign, int_laws, ◌+ℤ◌, ◌-ℤ◌, quot, scale, to_u64,
}
use exc.Time.{TimeValue, second, gt, lt, le, eq, add, msec, of_msec, IsNormal}
use exc.Time.Normalize.{time_laws}
use exc.Time.Arith.{arith_total}

pub record IsTime (t : TimeValue) : Type 0 where
  pub sec_nonneg : neg_part t.sec ≡ 0
  pub usec_nonneg : neg_part t.usec ≡ 0
  pub usec_small : pos_part t.usec < second

abbrev pub micros : TimeValue → ℕ
micros t = second * pos_part t.sec + pos_part t.usec

IsTime-IsNormal : (t : TimeValue) → IsTime t → IsNormal t
IsTime-IsNormal t h = record {
  below = omega arith;
  above = omega int_laws;
  if_pos = omega arith;
  if_neg = omega arith;
}

pub gt-micros : (a b : TimeValue) → IsTime a → IsTime b → gt a b ≡ ltb (micros b) (micros a)
unfolding gt
gt-micros a b h k = ground arith

pub lt-micros : (a b : TimeValue) → IsTime a → IsTime b → lt a b ≡ ltb (micros a) (micros b)
unfolding lt
lt-micros a b h k = ground arith

pub le-micros : (a b : TimeValue) → IsTime a → IsTime b → le a b ≡ leb (micros a) (micros b)
unfolding le
le-micros a b h k = ground arith

pub eq-micros : (a b : TimeValue) → IsTime a → IsTime b → eq a b ≡ (micros a == micros b)
unfolding eq
eq-micros a b h k = ground arith

pub add-micros :
    (a b : TimeValue)
    → IsTime a
    → IsTime b
    → IsTime (add a b) × (micros (add a b) ≡ micros a + micros b)
add-micros a b h k =
    let sum = (arith_total a b).0 in
    let f = ap pos_part sum.0 in
    let g = ap neg_part sum.0 in
    let n = sum.1 in
    let r = add a b in
    (
      record {
        sec_nonneg = omega (time_laws, one_sign r.sec, one_sign r.usec);
        usec_nonneg = omega (time_laws, one_sign r.sec, one_sign r.usec);
        usec_small = omega (time_laws, one_sign r.sec, one_sign r.usec);
      },
      omega (time_laws, one_sign r.sec, one_sign r.usec),
    )

pub msec-micros : (t : TimeValue) → IsTime t → msec t ≡ micros t / 1000 % 2 ^ 64
unfolding msec quot scale to_u64 ◌+ℤ◌
msec-micros t h = ground arith

of_msec_pos :
    (n : ℕ) → of_msec (pos n) ≡ record { sec = pos (n / 1000); usec = pos (1000 * (n % 1000)) }
unfolding of_msec quot scale ◌-ℤ◌
of_msec_pos n = ground arith

pub of_msec-micros : (n : ℕ) → IsTime (of_msec (pos n)) × (micros (of_msec (pos n)) ≡ 1000 * n)
of_msec-micros n =
    rw (of_msec_pos n)
      (record { sec_nonneg = refl; usec_nonneg = refl; usec_small = omega arith }, omega arith)
