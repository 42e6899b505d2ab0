-- ===== src/Time/Order.antt =====
-- The comparison operators of `TimeValue`: on normal values they compare the whole times.
use exc.Common.{
  ◌≡◌, refl, ap, ◌↔◌, ◌⊎◌, true, false, not, arith, ℤ, pos_part, neg_part, ◌<ℤ◌, ◌≤ℤ◌, one_sign,
  Bool-cases, inl, inr, ◌≢◌, eq_of_parts,
}
use exc.Time.{TimeValue, gt, ge, lt, le, eq, ne, total, IsNormal}
use exc.Time.Normalize.{time_laws}

abbrev Later : TimeValue → TimeValue → Type 0
Later a b = (b.sec <ℤ a.sec) ⊎ ((b.sec ≤ℤ a.sec) × (b.usec <ℤ a.usec))

gt→Later : (a b : TimeValue) → gt a b ≡ true → Later a b
unfolding gt
gt→Later a b h = ground arith

Later→gt : (a b : TimeValue) → Later a b → gt a b ≡ true
unfolding gt
Later→gt a b h = ground arith

ge-not-gt : (a b : TimeValue) → ge a b ≡ not (gt b a)
unfolding ge gt
ge-not-gt a b = ground arith

module _ (a b : TimeValue) (h : IsNormal a) (k : IsNormal b) where
  Later-total : Later a b → total b <ℤ total a
  Later-total l =
      omega (time_laws, one_sign a.sec, one_sign b.sec, one_sign a.usec, one_sign b.usec)

  total-Later : total b <ℤ total a → Later a b
  total-Later l =
      omega (time_laws, one_sign a.sec, one_sign b.sec, one_sign a.usec, one_sign b.usec)

  gt_iff : (gt a b ≡ true) ↔ (total b <ℤ total a)
  gt_iff = (λ e. Later-total (gt→Later a b e), λ e. Later→gt a b (total-Later e))

  same_sec : total a ≡ total b → (a.sec ≤ℤ b.sec) × (b.sec ≤ℤ a.sec)
  same_sec e =
      let f = ap pos_part e in
      let g = ap neg_part e in
      omega (time_laws, one_sign a.sec, one_sign b.sec, one_sign a.usec, one_sign b.usec)

  -- Two normal values with the same whole time are the same value.
  pub normal_unique : total a ≡ total b → a ≡ b
  normal_unique e =
      let f = ap pos_part e in
      let g = ap neg_part e in
      let (lo, hi) = same_sec e in
      let s : a.sec ≡ b.sec = eq_of_parts _ _ (omega arith) in
      let u : a.usec ≡ b.usec = eq_of_parts _ _ (omega time_laws) in
      λ i. record { sec = s i; usec = u i }

eq_iff : (a b : TimeValue) → (eq a b ≡ true) ↔ (a ≡ b)
unfolding eq
eq_iff a b = (λ e. record_path (ground arith) (ground arith), λ e. rw e (ground arith))
  where
    record_path : a.sec ≡ b.sec → a.usec ≡ b.usec → a ≡ b
    record_path s u = λ i. record { sec = s i; usec = u i }

order_cases : (x y : ℤ) → (x <ℤ y) ⊎ (y ≤ℤ x)
order_cases x y = omega arith

ge-total : (a b : TimeValue) → IsNormal a → IsNormal b → (ge a b ≡ true) ↔ (total b ≤ℤ total a)
ge-total a b h k =
    let other = gt_iff b a k h in
    elim (Bool-cases (gt b a)) [
      | inl e ↦ rw (ge-not-gt a b, e) (λ d. cc, λ d. absurd (omega (arith, other.0 e)))
      | inr e ↦ rw (ge-not-gt a b, e) (λ d. not_later e, λ d. refl)
    ]
  where
    not_later : gt b a ≡ false → total b ≤ℤ total a
    not_later e = elim (order_cases (total a) (total b)) [
      | inl l ↦ let later = (gt_iff b a k h).1 l in cc
      | inr l ↦ l
    ]

eq-total : (a b : TimeValue) → IsNormal a → IsNormal b → (eq a b ≡ true) ↔ (total a ≡ total b)
eq-total a b h k = (λ e. ap total ((eq_iff a b).0 e), λ e. (eq_iff a b).1 (normal_unique a b h k e))

ne_total : (a b : TimeValue) → IsNormal a → IsNormal b → (not (eq a b) ≡ true) ↔ (total a ≢ total b)
ne_total a b h k =
    let same = eq-total a b h k in
    (
      λ e d. let f = same.1 d in cc,
      λ d. elim (Bool-cases (eq a b)) [ inl e ↦ absurd (d (same.0 e)) | inr e ↦ rw e ],
    )

-- On normal values the six operators compare the whole times in microseconds.
pub compare_total :
    (a b : TimeValue)
    → IsNormal a
    → IsNormal b
    → ((gt a b ≡ true) ↔ (total b <ℤ total a))
      × ((ge a b ≡ true) ↔ (total b ≤ℤ total a))
      × ((lt a b ≡ true) ↔ (total a <ℤ total b))
      × ((le a b ≡ true) ↔ (total a ≤ℤ total b))
      × ((eq a b ≡ true) ↔ (total a ≡ total b))
      × ((ne a b ≡ true) ↔ (total a ≢ total b))
unfolding lt le ne
compare_total a b h k = (
  gt_iff a b h k,
  ge-total a b h k,
  gt_iff b a k h,
  ge-total b a k h,
  eq-total a b h k,
  ne_total a b h k,
)
