-- ===== src/Wheel/Inv.antt =====
-- What holds of a wheel between two calls.
use exc.Common.{
  ℕ, zero, suc, ◌+◌, ◌*◌, ◌%◌, ◌^◌, ◌≤◌, ◌<◌, ◌≡◌, refl, ap, ◌∙◌, List, [], ◌∷◌, some, arith,
  length, All, Bool, ◌==◌, if◌then◌else◌, get_or, set, get_or-set, inl, inr, subst, Bool-cases,
  ==_iff,
}
use native.Mathlib.Decide.{dec_lt}
use native.Mathlib.Nat.{pow-suc}
use exc.Time.Micros.{micros, IsTime}
use exc.Wheel.Node.{Node, Spoke, no_spoke}
use exc.Wheel.State.{Wheel, nodes_of, get_first, earliest_time}
use exc.Wheel.Sorted.{time, HasTime, Sorted}
use exc.Wheel.Ticks.{tick}
use exc.Wheel.Earliest.{Leads, IsFirst}

-- Times stay below 2 ^ 62 microseconds and periods below 2 ^ 60, some 36,000 years.
abbrev pub horizon : ℕ
horizon = 2 ^ 62

abbrev pub longest : ℕ
longest = 2 ^ 60

-- A node in spoke `i` has a task, and is there because its time falls in a tick of that spoke.
pub record Fits (res count i : ℕ) (n : Node) : Type 0 where
  pub called : 0 < n.task
  pub is_time : HasTime n
  pub positive : 0 < time n
  pub bounded : time n < horizon
  pub placed : tick res (time n) % count ≡ i
  pub period : IsTime n.interval
  pub period_bounded : micros n.interval < longest

-- The number of nodes in all the spokes.
abbrev pub total : List Spoke → ℕ
total [] = 0
total (s ∷ ss) = length s.nodes + total ss

-- The fields agree with each other and with the spokes, whose lists are sorted and rightly placed.
pub record IsBuilt (w : Wheel) : Type 0 where
  pub wide : length w.spokes ≡ w.spoke_count
  pub inside : w.earliest_spoke < w.spoke_count
  pub revolution_time : IsTime w.wheel_time
  pub revolution : micros w.wheel_time ≡ 1000 * 2 ^ w.res_bits
  pub counted : w.timer_count ≡ total w.spokes
  pub countable : w.timer_count < 2 ^ 32
  pub fits :
      (i : ℕ)
      → i < w.spoke_count
      → All (Fits (2 ^ w.res_bits) w.spoke_count i) (nodes_of w.spokes i)
  pub sorted : (i : ℕ) → i < w.spoke_count → Sorted (nodes_of w.spokes i)

-- The invariant: besides, the earliest spoke has the earliest timer, if there is any.
pub record Inv (w : Wheel) : Type 0 where
  pub built : IsBuilt w
  pub first : 0 < w.timer_count → IsFirst w.spokes w.spoke_count w.earliest_spoke

pub pow_pos : (k : ℕ) → 0 < 2 ^ k
pow_pos zero = omega arith
pow_pos (suc k) = rw pow-suc (omega (arith, pow_pos k))

module _ (spokes : List Spoke) (i : ℕ) (h : i < length spokes) where
  -- One spoke is rewritten, the others are not.
  pub nodes_of-set :
      (s : Spoke) (j : ℕ)
      → nodes_of (set spokes i s) j ≡ (if i == j then s.nodes else nodes_of spokes j)
  nodes_of-set s j = ap (λ r. r.nodes) (get_or-set spokes i j s no_spoke h) ∙ split (i == j)
    where
      split :
          (b : Bool)
          → (if b then s else get_or spokes j no_spoke).nodes
            ≡ (if b then s.nodes else nodes_of spokes j)
      split b = ground arith

pub total-set :
    (spokes : List Spoke) (i : ℕ) (s : Spoke)
    → i < length spokes
    → total (set spokes i s) + length (nodes_of spokes i) ≡ total spokes + length s.nodes
total-set [] i s h = absurd (omega arith)
total-set (x ∷ xs) zero s h = omega arith
total-set (x ∷ xs) (suc i) s h = omega (arith, total-set xs i s (omega arith))

pub total-nodes_of : (spokes : List Spoke) (i : ℕ) → length (nodes_of spokes i) ≤ total spokes
total-nodes_of [] i = omega arith
total-nodes_of (x ∷ xs) zero = omega arith
total-nodes_of (x ∷ xs) (suc i) = omega (arith, total-nodes_of xs i)

-- A wheel with a timer has a spoke with a timer.
pub occupied :
    (spokes : List Spoke)
    → 0 < total spokes
    → (i : ℕ) × (i < length spokes) × (0 < length (nodes_of spokes i))
occupied [] h = absurd (omega arith)
occupied (x ∷ xs) h = elim (dec_lt 0 (length x.nodes)) [
  | yes p ↦ (0, omega arith, p)
  | no p ↦ let (i, l, q) = occupied xs (omega arith) in (suc i, omega arith, q)
]

-- The earliest spoke of a wheel with a timer is not empty.
pub first_node :
    (w : Wheel)
    → Inv w
    → 0 < w.timer_count
    → (n : Node) × (ns : List Node) × (nodes_of w.spokes w.earliest_spoke ≡ n ∷ ns)
first_node w v h =
    let (i, k, l) = occupied w.spokes (omega (arith, v.built.counted)) in
    lead (nodes_of w.spokes i) l (v.first h i (omega (arith, v.built.wide)))
  where
    leads : (xs : List Node) (t : ℕ) → Leads xs t → (n : Node) × (ns : List Node) × (xs ≡ n ∷ ns)
    leads [] t q = absurd q
    leads (n ∷ ns) t q = (n, ns, refl)

    lead :
        (xs : List Node)
        → 0 < length xs
        → All (λ m. Leads (nodes_of w.spokes w.earliest_spoke) (time m)) xs
        → (n : Node) × (ns : List Node) × (nodes_of w.spokes w.earliest_spoke ≡ n ∷ ns)
    lead [] p q = absurd (omega arith)
    lead (m ∷ ms) p q = leads (nodes_of w.spokes w.earliest_spoke) (time m) q.0

-- What holds of the new nodes of spoke `s` and of all the old ones holds after the write.
pub at_each {ℓ} :
    (P : ℕ → List Node → Type ℓ) (ns old : List Node) (s i : ℕ)
    → P s ns
    → P i old
    → P i (if s == i then ns else old)
at_each P ns old s i p q = elim (Bool-cases (s == i)) [
  | inl e ↦ rw e (subst (λ j. P j ns) ((==_iff s i).0 e) p)
  | inr e ↦ rw e q
]

-- The head of the earliest spoke: what the code reads as the first node, and the earliest of all.
pub record IsEarliest (w : Wheel) (n : Node) (ns : List Node) : Type 0 where
  pub nodes : nodes_of w.spokes w.earliest_spoke ≡ n ∷ ns
  pub found : get_first w ≡ some n
  pub at_time : earliest_time w ≡ n.timer_value
  pub fit : Fits (2 ^ w.res_bits) w.spoke_count w.earliest_spoke n
  pub least : (i : ℕ) → i < w.spoke_count → All (λ m. time n ≤ time m) (nodes_of w.spokes i)

pub earliest_lem :
    (w : Wheel) → Inv w → 0 < w.timer_count → (n : Node) × (ns : List Node) × IsEarliest w n ns
unfolding get_first earliest_time
earliest_lem w v h =
    let (n, ns, e) = first_node w v h in
    let here = v.built.inside in
    (
      n,
      ns,
      record {
        nodes = e;
        found = rw e;
        at_time = rw e;
        fit =
            (subst (All (Fits (2 ^ w.res_bits) w.spoke_count w.earliest_spoke)) e
              (v.built.fits _ here)).0;
        least = λ i k.
            subst (λ xs. All (λ m. Leads xs (time m)) (nodes_of w.spokes i)) e (v.first h i k);
      },
    )
