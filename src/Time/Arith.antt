-- ===== src/Time/Arith.antt =====
-- Sums, differences and milliseconds of `TimeValue`.
use exc.Common.{
  ℕ, ◌≡◌, ◌<◌, ◌^◌, ◌∙◌, ap, arith, pos, pos_part, neg_part, one_sign, ◌+ℤ◌, ◌-ℤ◌, int_laws, quot,
  scale, to_u64,
}
use exc.Time.{
  TimeValue, add, sub, incr, decr, add_seconds, sub_seconds, second, total, IsNormal, msec, of_msec,
}
use exc.Time.Normalize.{time_laws, total-normalize-IsNormal}
use exc.Time.Order.{normal_unique}

-- `+`, `-`, `++` and `--` are exact on the whole time, and their results are normal.
pub arith_total :
    (a b : TimeValue)
    → ((total (add a b) ≡ total a +ℤ total b) × IsNormal (add a b))
      × ((total (sub a b) ≡ total a -ℤ total b) × IsNormal (sub a b))
      × ((total (incr a) ≡ total a +ℤ pos 1) × IsNormal (incr a))
      × ((total (decr a) ≡ total a -ℤ pos 1) × IsNormal (decr a))
unfolding add sub incr decr
arith_total a b =
    let p = total-normalize-IsNormal (record { sec = a.sec +ℤ b.sec; usec = a.usec +ℤ b.usec }) in
    let q = total-normalize-IsNormal (record { sec = a.sec -ℤ b.sec; usec = a.usec -ℤ b.usec }) in
    let r = total-normalize-IsNormal (record a { usec = a.usec +ℤ pos 1 }) in
    let t = total-normalize-IsNormal (record a { usec = a.usec -ℤ pos 1 }) in
    (
      (p.0 ∙ omega time_laws, p.1),
      (q.0 ∙ omega time_laws, q.1),
      (r.0 ∙ omega time_laws, r.1),
      (t.0 ∙ omega time_laws, t.1),
    )

-- Subtraction undoes addition on normal values.
pub sub-add : (a b : TimeValue) → IsNormal a → sub (add a b) b ≡ a
sub-add a b h =
    let sum = (arith_total a b).0 in
    let difference = (arith_total (add a b) b).1 in
    normal_unique _ _ difference.1 h (difference.0 ∙ ap (λ t. t -ℤ total b) sum.0 ∙ omega int_laws)

-- Milliseconds that fit 63 bits come back from `msec(long)` and `msec(void)`.
pub msec-of_msec : (n : ℕ) → n < 2 ^ 63 → msec (of_msec (pos n)) ≡ n
unfolding msec of_msec quot scale to_u64 ◌+ℤ◌ ◌-ℤ◌
msec-of_msec n h = ground arith

-- `+=` and `-=` with seconds are exact on the whole time, but only `+=` keeps a value that is not
-- negative in normal form: `-=` of more seconds than a value with microseconds has leaves a
-- negative number of seconds with microseconds that are not, and the result is not normal.
pub seconds_total :
    (a : TimeValue) (n : ℕ)
    → IsNormal a
    → neg_part a.sec ≡ 0
    → pos_part a.sec < n
    → 0 < pos_part a.usec
    → (total (add_seconds a (pos n)) ≡ total a +ℤ scale second (pos n))
      × IsNormal (add_seconds a (pos n))
      × (total (sub_seconds a (pos n)) ≡ total a -ℤ scale second (pos n))
      × (¬ IsNormal (sub_seconds a (pos n)))
unfolding add_seconds sub_seconds
seconds_total a n h s l u = (
  omega time_laws,
  record {
    below = h.below;
    above = h.above;
    if_pos = omega (int_laws, one_sign a.usec);
    if_neg = omega int_laws;
  },
  omega time_laws,
  λ k. omega (int_laws, k.if_neg, one_sign a.usec, one_sign a.sec),
)
