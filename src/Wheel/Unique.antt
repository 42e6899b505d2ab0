-- ===== src/Wheel/Unique.antt =====
-- The ids of the timers: each is made of a spoke and of a counter that the spoke has passed, and
-- no two timers in the wheel have the same.
use mathlib.Core.List.{Perm}
use native.Mathlib.Decide.{dec_lt}
use exc.Common.{
  ℕ, zero, suc, ◌+◌, ◌*◌, ◌^◌, ◌≤◌, ◌<◌, ◌≡◌, refl, sym, ap, subst, ◌∙◌, List, [], ◌∷◌, arith,
  length, All, Bool, true, false, Bool-cases, inl, inr, ℤ, pos, eqb_ℤ, get_or, pos_part,
  eq_of_parts,
}
use exc.Time.{TimeValue}
use exc.Wheel.Node.{Node, Spoke, no_spoke}
use exc.Wheel.State.{Wheel, nodes_of, NodeRef, set_nodes, is_empty}
use exc.Wheel.Ids.{join_id}
use exc.Wheel.Ops.{link, unlink, recalc_earliest}
use exc.Wheel.Contents.{all_nodes}
use exc.Wheel.Counts.{one_if, count, count-perm, count-append, count-eq-zero}

abbrev pub counter_of : Wheel → ℕ → ℕ
counter_of w s = (get_or w.spokes s no_spoke).counter

abbrev pub has_id : ℤ → Node → Bool
has_id id n = eqb_ℤ n.timer_id id

-- The counter of a spoke is past the one in this id.
abbrev pub IsIssued : Wheel → ℤ → Type 0
IsIssued w id =
    (c : ℕ) × (s : ℕ) × (id ≡ pos (join_id w.spoke_bits c s))
    × (s < w.spoke_count)
    × (c < counter_of w s)

pub record HasIds (w : Wheel) : Type 0 where
  pub sized : w.spoke_count ≡ 2 ^ w.spoke_bits
  pub issued : (id : ℤ) → 0 < count (has_id id) (all_nodes w.spokes) → IsIssued w id
  pub once : (id : ℤ) → count (has_id id) (all_nodes w.spokes) ≤ 1

-- The spokes of `w'` are those of `w`, with counters that are not behind.
pub record Grows (w w' : Wheel) : Type 0 where
  pub bits : w'.spoke_bits ≡ w.spoke_bits
  pub spokes : w'.spoke_count ≡ w.spoke_count
  pub counters : (i : ℕ) → counter_of w i ≤ counter_of w' i

pub Grows-trans : (a b c : Wheel) → Grows a b → Grows b c → Grows a c
Grows-trans a b c g h = record {
  bits = h.bits ∙ g.bits;
  spokes = h.spokes ∙ g.spokes;
  counters = λ i. omega (arith, g.counters i, h.counters i);
}

counter-set_nodes :
    (spokes : List Spoke) (s i : ℕ) (ns : List Node)
    → (get_or (set_nodes spokes s ns) i no_spoke).counter ≡ (get_or spokes i no_spoke).counter
counter-set_nodes [] s i ns = refl
counter-set_nodes (x ∷ xs) zero zero ns = refl
counter-set_nodes (x ∷ xs) zero (suc i) ns = refl
counter-set_nodes (x ∷ xs) (suc s) zero ns = refl
counter-set_nodes (x ∷ xs) (suc s) (suc i) ns = counter-set_nodes xs s i ns

pub unlink-Grows : (r : NodeRef) (w : Wheel) → Grows w (unlink r w)
unfolding unlink
unlink-Grows r w = record {
  bits = refl;
  spokes = refl;
  counters = λ i. omega (arith, counter-set_nodes w.spokes r.spoke i _);
}

pub link-Grows : (n : Node) (s : ℕ) (t : TimeValue) (w : Wheel) → Grows w (link n s t w)
unfolding link
link-Grows n s t w = record {
  bits = refl;
  spokes = refl;
  counters = λ i. omega (arith, counter-set_nodes w.spokes s i _);
}

mul_gap : (m a b : ℕ) → a < b → a * m + m ≤ b * m
mul_gap m a b h = grind arith

pub join_id_inj : (m a b s t : ℕ) → s < m → t < m → a * m + s ≡ b * m + t → (a ≡ b) × (s ≡ t)
join_id_inj m a b s t h k e = elim (dec_lt a b) [
  | yes l ↦ absurd (let q = mul_gap m a b l in omega arith)
  | no l ↦ elim (dec_lt b a) [
    | yes r ↦ absurd (let q = mul_gap m b a r in omega arith)
    | no r ↦
        let same : a ≡ b = omega arith in (same, let q = ap (λ (c : ℕ). c * m) same in omega arith)
  ]
]

pub recalc-Grows : (t : TimeValue) (w : Wheel) → Grows w (recalc_earliest t w)
unfolding recalc_earliest
recalc-Grows t w = elim (Bool-cases (is_empty w)) [
  | inl e ↦ rw e (record { bits = refl; spokes = refl; counters = λ i. omega arith })
  | inr e ↦ rw e (record { bits = refl; spokes = refl; counters = λ i. omega arith })
]

pub IsIssued-Grows : (w w' : Wheel) (id : ℤ) → Grows w w' → IsIssued w id → IsIssued w' id
IsIssued-Grows w w' id g (c, s, e, h, k) = (
  c,
  s,
  e ∙ ap (λ b. pos (join_id b c s)) (sym g.bits),
  omega (arith, g.spokes),
  omega (arith, g.counters s),
)

has_id-eq : (n : Node) (id : ℤ) → has_id id n ≡ true → n.timer_id ≡ id
has_id-eq n id h = eq_of_parts _ _ (ground arith)

pub has_id_self : (n : Node) → has_id n.timer_id n ≡ true
has_id_self n = ground arith

module _ (w w' : Wheel) (n : Node) (grows : Grows w w') (h : HasIds w) where
  -- What stays when a timer goes, and what is known of the timer that is out.
  pub lose :
      Perm (all_nodes w.spokes) (n ∷ all_nodes w'.spokes)
      → HasIds w' × (count (has_id n.timer_id) (all_nodes w'.spokes) ≡ 0) × IsIssued w' n.timer_id
  lose perm =
      let split = λ (id : ℤ). count-perm (has_id id) perm in
      let here : one_if (has_id n.timer_id n) ≡ 1 = rw (has_id_self n) in
      (
        record {
          sized = grows.spokes ∙ h.sized ∙ ap (λ b. 2 ^ b) (sym grows.bits);
          issued = λ id k. IsIssued-Grows w w' id grows (h.issued id (omega (arith, split id)));
          once = λ id. omega (arith, split id, h.once id);
        },
        omega (arith, split n.timer_id, h.once n.timer_id, here),
        IsIssued-Grows w w' n.timer_id grows
            (h.issued n.timer_id (omega (arith, split n.timer_id, here))),
      )

  -- A timer whose id is in no other comes in.
  pub gain :
      count (has_id n.timer_id) (all_nodes w.spokes) ≡ 0
      → IsIssued w' n.timer_id
      → Perm (all_nodes w'.spokes) (n ∷ all_nodes w.spokes)
      → HasIds w'
  gain none own perm =
      let split = λ (id : ℤ). count-perm (has_id id) perm in
      record {
        sized = grows.spokes ∙ h.sized ∙ ap (λ b. 2 ^ b) (sym grows.bits);
        issued = λ id k. elim (Bool-cases (has_id id n)) [
          | inl e ↦ subst (IsIssued w') (has_id-eq n id e) own
          | inr e ↦
              let other : one_if (has_id id n) ≡ 0 = rw e in
              IsIssued-Grows w w' id grows (h.issued id (omega (arith, split id)))
        ];
        once = λ id. elim (Bool-cases (has_id id n)) [
          | inl e ↦
              let here : one_if (has_id id n) ≡ 1 = rw e in
              let out : count (has_id id) (all_nodes w.spokes) ≡ 0 =
                subst (λ i. count (has_id i) (all_nodes w.spokes) ≡ 0) (has_id-eq n id e) none in
              omega (arith, split id)
          | inr e ↦
              let other : one_if (has_id id n) ≡ 0 = rw e in omega (arith, split id, h.once id)
        ];
      }

-- The next id of a spoke is in no timer of the wheel.
pub fresh_id :
    (w : Wheel) (s : ℕ)
    → HasIds w
    → s < w.spoke_count
    → count (has_id (pos (join_id w.spoke_bits (counter_of w s) s))) (all_nodes w.spokes) ≡ 0
fresh_id w s h inside =
    let id = pos (join_id w.spoke_bits (counter_of w s) s) in
    elim (dec_lt 0 (count (has_id id) (all_nodes w.spokes))) [
      | yes k ↦
          let (c, t, e, t_inside, passed) = h.issued id k in
          let (same_counter, same_spoke) =
            join_id_inj (2 ^ w.spoke_bits) (counter_of w s) c s t (omega (arith, h.sized))
              (omega (arith, h.sized)) (ap pos_part e) in
          absurd (let q = ap (counter_of w) same_spoke in omega arith)
      | no k ↦ omega arith
    ]

pub count-zero-All :
    (p : Node → Bool) (spokes : List Spoke)
    → ((i : ℕ) → i < length spokes → All (λ m. p m ≡ false) (nodes_of spokes i))
    → count p (all_nodes spokes) ≡ 0
count-zero-All p [] h = refl
count-zero-All p (s ∷ ss) h = omega (
  arith,
  count-append p s.nodes (all_nodes ss),
  count-eq-zero p s.nodes (h 0 (omega arith)),
  count-zero-All p ss (λ i k. h (suc i) (omega arith)),
)
