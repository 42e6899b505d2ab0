-- ===== src/Time/Normalize.antt =====
-- `TimeValue::normalize`: the loops end, the time is kept, and the result is in normal form.
use exc.Common.{
  ℕ, zero, suc, ◌+◌, ◌*◌, ◌≤◌, ◌<◌, ◌≡◌, refl, sym, ◌∙◌, inl, inr, Bool, true, false, Bool-cases,
  arith, leb_ℤ, if◌then◌else◌, ℤ, pos, pos_part, neg_part, ◌+ℤ◌, ◌-ℤ◌, ◌≤ℤ◌, ◌<ℤ◌, scale, int_laws,
  one_sign,
}
use exc.Time.{TimeValue, second, carry_up, carry_down, carry, fix_sign, normalize, total, IsNormal}

pub total_parts :
    (t : TimeValue)
    → pos_part (total t) + second * neg_part t.sec + neg_part t.usec
      ≡ neg_part (total t) + second * pos_part t.sec + pos_part t.usec
unfolding total
total_parts t = omega int_laws

pub ruleset time_laws = (int_laws, total_parts)

abbrev up : TimeValue → TimeValue
up t = record { sec = t.sec +ℤ pos 1; usec = t.usec -ℤ pos second }

abbrev down : TimeValue → TimeValue
down t = record { sec = t.sec -ℤ pos 1; usec = t.usec +ℤ pos second }

total-up : (t : TimeValue) → total (up t) ≡ total t
total-up t = omega time_laws

total-down : (t : TimeValue) → total (down t) ≡ total t
total-down t = omega time_laws

carry_up_lem :
    (fuel : ℕ) (t : TimeValue)
    → pos_part t.usec < second + fuel * second
    → let r = carry_up fuel t in
      (total r ≡ total t) × (r.usec <ℤ pos second) × (pos 0 ≤ℤ t.usec → pos 0 ≤ℤ r.usec)
unfolding carry_up
carry_up_lem zero t h = (refl, omega arith, λ k. k)
carry_up_lem (suc fuel) t h = elim (Bool-cases (leb_ℤ (pos second) t.usec)) [
  | inl e ↦
      let big : pos second ≤ℤ t.usec = ground arith in
      let (same, small, sign) =
        carry_up_lem fuel (up t)
          (omega (int_laws, one_sign t.usec, one_sign (t.usec -ℤ pos second))) in
      rw (e, carry_up) (same ∙ total-up t, small, λ k. sign (omega int_laws))
  | inr e ↦ rw (e, carry_up) (refl, ground arith, λ k. k)
]

carry_down_lem :
    (fuel : ℕ) (t : TimeValue)
    → neg_part t.usec < second + fuel * second
    → let r = carry_down fuel t in
      (total r ≡ total t) × (pos 0 <ℤ r.usec +ℤ pos second) × (t.usec ≤ℤ pos 0 → r.usec ≤ℤ pos 0)
unfolding carry_down
carry_down_lem zero t h = (refl, omega (int_laws, one_sign t.usec), λ k. k)
carry_down_lem (suc fuel) t h = elim (Bool-cases (leb_ℤ (t.usec +ℤ pos second) (pos 0))) [
  | inl e ↦
      let low : t.usec +ℤ pos second ≤ℤ pos 0 = ground arith in
      let (same, small, sign) =
        carry_down_lem fuel (down t)
          (omega (int_laws, one_sign t.usec, one_sign (t.usec +ℤ pos second))) in
      rw (e, carry_down) (same ∙ total-down t, small, λ k. sign (omega int_laws))
  | inr e ↦ rw (e, carry_down) (refl, ground arith, λ k. k)
]

fix_sign-total : (t : TimeValue) → total (fix_sign t) ≡ total t
unfolding fix_sign
fix_sign-total t = ground (arith, total-up t, total-down t)

fix_sign-IsNormal :
    (t : TimeValue) → t.usec <ℤ pos second → pos 0 <ℤ t.usec +ℤ pos second → IsNormal (fix_sign t)
unfolding fix_sign ◌+ℤ◌ ◌-ℤ◌
fix_sign-IsNormal t hi lo = ground arith

carry_lem :
    (t : TimeValue)
    → let r = carry t in
      (total r ≡ total t) × (r.usec <ℤ pos second) × (pos 0 <ℤ r.usec +ℤ pos second)
unfolding carry
carry_lem t = elim (Bool-cases (leb_ℤ (pos second) t.usec)) [
  | inl e ↦
      let big : pos second ≤ℤ t.usec = ground arith in
      let (same, small, sign) = carry_up_lem (pos_part t.usec) t (omega arith) in
      let good = sign (omega arith) in rw e (same, small, omega int_laws)
  | inr e ↦ elim (Bool-cases (leb_ℤ (t.usec +ℤ pos second) (pos 0))) [
    | inl d ↦
        let low : t.usec +ℤ pos second ≤ℤ pos 0 = ground arith in
        let (same, small, sign) = carry_down_lem (neg_part t.usec) t (omega arith) in
        let good = sign (omega int_laws) in rw (e, d) (same, omega int_laws, small)
    | inr d ↦ rw (e, d) (refl, ground arith, ground arith)
  ]
]

-- `normalize` ends within its fuel, keeps the whole time, and leaves less than a second of
-- microseconds, of the sign of the seconds.
pub total-normalize-IsNormal :
    (t : TimeValue) → (total (normalize t) ≡ total t) × IsNormal (normalize t)
unfolding normalize
total-normalize-IsNormal t =
    let (same, hi, lo) = carry_lem t in
    (fix_sign-total (carry t) ∙ same, fix_sign-IsNormal (carry t) hi lo)
