-- ===== src/Wheel/Sorted.antt =====
-- The nodes of a spoke stay in the order of their times.
use exc.Common.{
  ℕ, zero, suc, ◌+◌, ◌≤◌, ◌<◌, ◌≡◌, ◌≢◌, refl, ap, inl, inr, List, [], ◌∷◌, arith, length, All,
  Bool-cases, ◌==◌, if◌then◌else◌,
}
use exc.Time.{TimeValue, gt}
use exc.Time.Micros.{micros, IsTime, gt-micros}
use exc.Wheel.Node.{Node, later_at, walk_back, link_at, insert, unlink_at}

-- Every node satisfies what the wheel asks of the nodes of this spoke.
module _ (P : Node → Type 0) where
  pub All-link_at : (k : ℕ) (n : Node) (ns : List Node) → P n → All P ns → All P (link_at k n ns)
  unfolding link_at
  All-link_at zero n ns p h = (p, h)
  All-link_at (suc k) n [] p h = (p, tt)
  All-link_at (suc k) n (m ∷ ns) p h = (h.0, All-link_at k n ns p h.1)

  pub All-unlink_at : (i : ℕ) (ns : List Node) → All P ns → All P (unlink_at i ns)
  unfolding unlink_at
  All-unlink_at zero [] h = tt
  All-unlink_at (suc i) [] h = tt
  All-unlink_at zero (n ∷ ns) h = h.1
  All-unlink_at (suc i) (n ∷ ns) h = (h.0, All-unlink_at i ns h.1)

pub length-link_at : (k : ℕ) (n : Node) (ns : List Node) → length (link_at k n ns) ≡ length ns + 1
unfolding link_at
length-link_at zero n ns = omega arith
length-link_at (suc k) n [] = omega arith
length-link_at (suc k) n (m ∷ ns) = omega (arith, length-link_at k n ns)

pub length-unlink_at :
    (i : ℕ) (ns : List Node) → i < length ns → length (unlink_at i ns) + 1 ≡ length ns
unfolding unlink_at
length-unlink_at i [] h = absurd (omega arith)
length-unlink_at zero (n ∷ ns) h = omega arith
length-unlink_at (suc i) (n ∷ ns) h = omega (arith, length-unlink_at i ns (omega arith))

abbrev pub time : Node → ℕ
time n = micros n.timer_value

abbrev pub HasTime : Node → Type 0
HasTime n = IsTime n.timer_value

abbrev pub From : ℕ → List Node → Type 0
From t = All (λ m. t ≤ time m)

abbrev pub Sorted : List Node → Type 0
Sorted [] = Unit {0}
Sorted (n ∷ ns) = From (time n) ns × Sorted ns

pub From-mono : (t u : ℕ) (ns : List Node) → u ≤ t → From t ns → From u ns
From-mono t u [] h f = tt
From-mono t u (n ∷ ns) h f = (omega arith, From-mono t u ns h f.1)

pub unlink_at-Sorted : (i : ℕ) (ns : List Node) → Sorted ns → Sorted (unlink_at i ns)
unfolding unlink_at
unlink_at-Sorted zero [] s = tt
unlink_at-Sorted (suc i) [] s = tt
unlink_at-Sorted zero (n ∷ ns) s = s.1
unlink_at-Sorted (suc i) (n ∷ ns) s = (All-unlink_at _ i ns s.0, unlink_at-Sorted i ns s.1)

module _ (e : TimeValue) (is_time : IsTime e) where
  -- The walk over a longer list first goes as far as in the tail.
  walk_back-cons :
      (n : Node) (ns : List Node) (k : ℕ)
      → walk_back (n ∷ ns) e (suc k) ≡ (
          if walk_back ns e k == 0
          then (if gt n.timer_value e then 0 else 1)
          else suc (walk_back ns e k))
  unfolding walk_back later_at
  walk_back-cons n ns zero = ground arith
  walk_back-cons n ns (suc k) = ground (arith, walk_back-cons n ns k)

  -- The walk ends at the root only if every node is later.
  pub walk_back-root :
      (ns : List Node) → All HasTime ns → walk_back ns e (length ns) ≡ 0 → From (micros e + 1) ns
  walk_back-root [] h w = tt
  walk_back-root (n ∷ ns) h w =
      let g = gt-micros n.timer_value e h.0 is_time in
      let c = walk_back-cons n ns (length ns) in
      let z : walk_back ns e (length ns) ≡ 0 = ground arith in
      (ground arith, walk_back-root ns h.1 z)

  -- Otherwise it ends at a node that is not later.
  walk_back-node :
      (t : ℕ) (ns : List Node)
      → All HasTime ns
      → From t ns
      → walk_back ns e (length ns) ≢ 0
      → t ≤ micros e
  unfolding walk_back
  walk_back-node t [] h f w = absurd (w refl)
  walk_back-node t (n ∷ ns) h f w =
      let g = gt-micros n.timer_value e h.0 is_time in
      let c = walk_back-cons n ns (length ns) in ground (arith, walk_back-node t ns h.1 f.1)

  -- Inserting a node at its own time keeps the list of a spoke sorted.
  pub insert-Sorted :
      (n : Node) (ns : List Node)
      → n.timer_value ≡ e
      → All HasTime ns
      → Sorted ns
      → Sorted (insert n e ns)
  unfolding insert link_at walk_back
  insert-Sorted n [] p h s = (tt, tt)
  insert-Sorted n (m ∷ ns) p h s =
      let g = gt-micros m.timer_value e h.0 is_time in
      let q : time n ≡ micros e = ap micros p in
      elim (Bool-cases (walk_back ns e (length ns) == 0)) [
        | inl z ↦ elim (Bool-cases (gt m.timer_value e)) [
          | inl later ↦
              rw (walk_back-cons m ns (length ns), z, later)
                ((ground arith, From-mono (time m) (time n) ns (ground arith) s.0), s)
          | inr sooner ↦
              rw (walk_back-cons m ns (length ns), z, sooner)
                (
                  (ground arith, s.0),
                  (
                    From-mono (micros e + 1) (time n) ns (omega arith)
                        (walk_back-root ns h.1 (ground arith)),
                    s.1,
                  ),
                )
        ]
        | inr z ↦
            rw (walk_back-cons m ns (length ns), z)
              (
                All-link_at _ (walk_back ns e (length ns)) n ns
                    (omega (arith, walk_back-node (time m) ns h.1 s.0 (ground arith))) s.0,
                insert-Sorted n ns p h.1 s.1,
              )
      ]
