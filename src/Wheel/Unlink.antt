-- ===== src/Wheel/Unlink.antt =====
-- Taking a timer out keeps the invariant, since `recalc_earliest` finds the next earliest spoke.
use exc.Common.{
  ℕ, zero, suc, ◌+◌, ◌%◌, ◌^◌, ◌≤◌, ◌<◌, ◌≡◌, ap, ◌∙◌, List, [], ◌∷◌, arith, length, All,
  Bool-cases, ◌==◌, ◌||◌, if◌then◌else◌, get_or, length-set, inl, inr,
}
use exc.Time.{TimeValue, zero_time, add, lt, eq}
use exc.Time.Micros.{micros, IsTime, add-micros}
use exc.Wheel.Node.{Node, Spoke, no_spoke, unlink_at}
use exc.Wheel.State.{Wheel, NodeRef, nodes_of, is_empty}
use exc.Wheel.Ops.{unlink, recalc_earliest, scan, next_spoke}
use exc.Wheel.Sorted.{time, Sorted, All-unlink_at, length-unlink_at, unlink_at-Sorted}
use exc.Wheel.Ticks.{tick}
use exc.Wheel.Earliest.{All-map₂, scan-IsFirst}
use exc.Wheel.Inv.{
  Fits, total, IsBuilt, Inv, nodes_of-set, total-set, total-nodes_of, at_each, pow_pos,
}

module _ (r : NodeRef) (w : Wheel) (b : IsBuilt w) (inside : r.spoke < w.spoke_count)
    (linked : r.index < length (nodes_of w.spokes r.spoke)) where
  abbrev after : Wheel
  after = unlink r w

  abbrev shorter : List Node
  shorter = unlink_at r.index (nodes_of w.spokes r.spoke)

  pub unlink-nodes :
      (i : ℕ) → nodes_of after.spokes i ≡ (if r.spoke == i then shorter else nodes_of w.spokes i)
  unfolding unlink
  unlink-nodes i = nodes_of-set w.spokes r.spoke (rw b.wide inside) _ i

  unlink-total : total after.spokes + 1 ≡ total w.spokes
  unfolding unlink
  unlink-total = omega (
    arith,
    total-set w.spokes r.spoke (record (get_or w.spokes r.spoke no_spoke) { nodes = shorter })
        (rw b.wide inside),
    length-unlink_at r.index (nodes_of w.spokes r.spoke) linked,
  )

  pub unlink-count : after.timer_count + 1 ≡ w.timer_count
  unfolding unlink
  unlink-count = omega (arith, b.counted, b.countable, total-nodes_of w.spokes r.spoke)

  pub unlink-IsBuilt : IsBuilt after
  unfolding unlink
  unlink-IsBuilt = record {
    wide = length-set w.spokes r.spoke _ ∙ b.wide;
    inside = b.inside;
    revolution_time = b.revolution_time;
    revolution = b.revolution;
    counted = omega (arith, unlink-total, unlink-count, b.counted);
    countable = omega (arith, unlink-count, b.countable);
    fits = λ i k. rw (unlink-nodes i) (
        at_each (λ j. All (Fits (2 ^ w.res_bits) w.spoke_count j)) shorter _ r.spoke i
          (All-unlink_at _ r.index _ (b.fits r.spoke inside)) (b.fits i k));
    sorted = λ i k. rw (unlink-nodes i) (
        at_each (λ j. Sorted) shorter _ r.spoke i
          (unlink_at-Sorted r.index _ (b.sorted r.spoke inside)) (b.sorted i k));
  }

  -- What held of all the nodes holds of those that are left.
  pub All-unlink :
      (P : Node → Type 0)
      → ((i : ℕ) → i < w.spoke_count → All P (nodes_of w.spokes i))
      → (i : ℕ) → i < w.spoke_count
      → All P (nodes_of after.spokes i)
  All-unlink P h i k = rw (unlink-nodes i) (
      at_each (λ j. All P) shorter _ r.spoke i (All-unlink_at P r.index _ (h r.spoke inside))
        (h i k))

next_spoke-lt : (count s : ℕ) → s < count → next_spoke count s < count
unfolding next_spoke
next_spoke-lt count s h = ground arith

-- The search stays among the spokes.
scan-lt :
    (spokes : List Spoke) (count : ℕ) (limit : TimeValue) (rounds s : ℕ) (et : TimeValue) (es : ℕ)
    → s < count
    → es < count
    → scan spokes count limit rounds s et es < count
unfolding scan
scan-lt spokes count limit zero s et es h k = k
scan-lt spokes count limit (suc rounds) s et es h k =
    let next = next_spoke-lt count s h in
    at_nodes (nodes_of spokes s)
      (λ et' es' k'. scan-lt spokes count limit rounds (next_spoke count s) et' es' next k')
  where
    at_nodes :
        (xs : List Node)
        → ((et' : TimeValue) (es' : ℕ)
            → es' < count
            → scan spokes count limit rounds (next_spoke count s) et' es' < count)
        → elim xs [
          | [] ↦ scan spokes count limit rounds (next_spoke count s) et es
          | n ∷ ns ↦
              let nearer = scan spokes count limit rounds (next_spoke count s) n.timer_value s in
              let same = scan spokes count limit rounds (next_spoke count s) et es in
              if lt n.timer_value limit
              then s
              else if eq et zero_time || lt n.timer_value et
              then nearer
              else same
        ]
          < count
    at_nodes [] ih = ih et es k
    at_nodes (n ∷ ns) ih = ground (arith, ih et es k, ih n.timer_value s h)

-- With no timer before `last`, the search from the spoke of `last` finds the earliest spoke.
pub recalc-Inv :
    (last : TimeValue) (w : Wheel)
    → IsBuilt w
    → IsTime last
    → w.earliest_spoke ≡ tick (2 ^ w.res_bits) (micros last) % w.spoke_count
    → ((i : ℕ) → i < w.spoke_count → All (λ m. micros last ≤ time m) (nodes_of w.spokes i))
    → Inv (recalc_earliest last w)
unfolding recalc_earliest is_empty
recalc-Inv last w b t start later =
    let limit = add last w.wheel_time in
    let sum = add-micros last w.wheel_time t b.revolution_time in
    elim (Bool-cases (w.timer_count == 0)) [
      | inl e ↦ rw e (record { built = b; first = λ h. absurd (ground arith) })
      | inr e ↦ rw e (record {
        built = record {
          wide = b.wide;
          inside =
              scan-lt w.spokes w.spoke_count limit w.spoke_count w.earliest_spoke zero_time 0
                b.inside (omega arith);
          revolution_time = b.revolution_time;
          revolution = b.revolution;
          counted = b.counted;
          countable = b.countable;
          fits = b.fits;
          sorted = b.sorted;
        };
        first = λ h.
            scan-IsFirst w.spokes w.spoke_count (2 ^ w.res_bits) (micros last) limit
              (pow_pos w.res_bits) sum.0 (sum.1 ∙ ap (λ k. micros last + k) b.revolution)
              (λ i k.
                All-map₂
                  (λ m f l. record {
                    is_time = f.is_time;
                    positive = f.positive;
                    after = l;
                    placed = f.placed;
                  })
                  _ (b.fits i k) (later i k))
              b.sorted w.spoke_count w.earliest_spoke zero_time 0 (omega arith)
              (record {
                inside = b.inside;
                few = omega arith;
                begun = inl start;
                passed = λ i k q. absurd (ground arith);
                held = λ q. absurd (omega arith);
              });
      })
    ]
