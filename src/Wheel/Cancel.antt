-- ===== src/Wheel/Cancel.antt =====
-- `cancel_timer` takes out a timer with the id, if there is one, and keeps the wheel right.

use exc.Common.{
  ℕ, zero, suc, ◌<◌, ◌≡◌, ◌≢◌, refl, sym, ap, subst, ◌∙◌, List, [], ◌∷◌, Option, none, some, arith,
  length, true, false, Bool-cases, ◌==◌, ◌&&◌, if◌then◌else◌, inl, inr, ◌⊎◌, ==_iff, ℤ, negsuc,
  get_elem?,
}
use exc.FreeList.{FreeList}
use exc.Time.{TimeValue}
use exc.Wheel.Node.{Node, unlink_at}
use exc.Wheel.State.{Wheel, NodeRef, Run, nodes_of, find_node, free_node, is_empty}
use exc.Wheel.Ops.{unlink, recalc_earliest, cancel_timer, node_at}
use exc.Wheel.Sorted.{time}
use exc.Wheel.Earliest.{Leads, IsFirst, All-map}
use exc.Wheel.Inv.{Inv, earliest_lem, total-nodes_of}
use exc.Wheel.Unique.{unlink-Grows}
use exc.Wheel.Unlink.{unlink-nodes, unlink-count, unlink-IsBuilt, All-unlink}
use exc.Wheel.Remove.{Takes, unlink-perm, head_ref, head_Takes}
use exc.Wheel.Find.{Lacks, Tells, find_node-Tells}

-- The free list is no part of what the invariant reads.
pub relist-Inv : (w : Wheel) (f : FreeList) → Inv w → Inv (record w { free_list = f })
relist-Inv w f v = record {
  built = record {
    wide = v.built.wide;
    inside = v.built.inside;
    revolution_time = v.built.revolution_time;
    revolution = v.built.revolution;
    counted = v.built.counted;
    countable = v.built.countable;
    fits = v.built.fits;
    sorted = v.built.sorted;
  };
  first = v.first;
}

-- The head of a list stays when a later node goes.
Leads-unlink_at :
    (i : ℕ) (ns : List Node) (t : ℕ) → (i == 0) ≡ false → Leads ns t → Leads (unlink_at i ns) t
unfolding unlink_at
Leads-unlink_at zero ns t e l = cc
Leads-unlink_at (suc i) [] t e l = l
Leads-unlink_at (suc i) (n ∷ ns) t e l = l

module _ (r : NodeRef) (w : Wheel) (n : Node) (v : Inv w) (inside : r.spoke < w.spoke_count)
    (at_ref : node_at w r ≡ some n) (linked : r.index < length (nodes_of w.spokes r.spoke)) where
  -- Without a new search the earliest spoke must keep its first node.
  kept-IsFirst :
      (r.spoke == w.earliest_spoke && r.index == 0) ≡ false
      → IsFirst (unlink r w).spokes w.spoke_count w.earliest_spoke
  kept-IsFirst e i k =
      let b = v.built in
      let old = v.first (omega (arith, unlink-count r w b inside linked)) in
      All-unlink r w b inside linked
        (λ m. Leads (nodes_of (unlink r w).spokes w.earliest_spoke) (time m))
        (λ j l. All-map (λ m q. still (time m) q) _ (old j l)) i k
    where
      later_index : (r.spoke == w.earliest_spoke) ≡ true → (r.index == 0) ≡ false
      later_index d = ground arith

      still :
          (t : ℕ)
          → Leads (nodes_of w.spokes w.earliest_spoke) t
          → Leads (nodes_of (unlink r w).spokes w.earliest_spoke) t
      still t q =
          rw (unlink-nodes r w v.built inside linked w.earliest_spoke)
            (elim (Bool-cases (r.spoke == w.earliest_spoke)) [
              | inl d ↦ rw d (Leads-unlink_at r.index _ t (later_index d) (rw ((==_iff _ _).0 d) q))
              | inr d ↦ rw d q
            ])

  unlink-Takes : (r.spoke == w.earliest_spoke && r.index == 0) ≡ false → Takes w n (unlink r w)
  unfolding unlink
  unlink-Takes e = record {
    inv = record { built = unlink-IsBuilt r w v.built inside linked; first = λ h. kept-IsFirst e };
    rest = unlink-perm r w n v.built inside at_ref;
    count = unlink-count r w v.built inside linked;
    same_res = refl;
    same_spokes = refl;
    grows = unlink-Grows r w;
  }

head-Takes :
    (r : NodeRef) (w : Wheel) (n : Node)
    → Inv w
    → head_ref w ≡ r
    → node_at w r ≡ some n
    → r.index < length (nodes_of w.spokes r.spoke)
    → Takes w n (recalc_earliest n.timer_value (unlink r w))
head-Takes r w n v e at_ref linked =
    let (m, ns, q) =
      earliest_lem w v (omega (arith, v.built.counted, total-nodes_of w.spokes r.spoke)) in
    let same : m ≡ n =
      head_eq m ns (sym (ap (λ xs. get_elem? xs 0) q.nodes) ∙ ap (node_at w) e ∙ at_ref) in
    subst (λ k. Takes w k (recalc_earliest k.timer_value (unlink r w))) same
      (subst (λ k. Takes w m (recalc_earliest m.timer_value (unlink k w))) e
        (head_Takes w m ns v q))
  where
    head_eq : (m : Node) (ns : List Node) → some m ≡ some n → m ≡ n
    head_eq m ns e = cc

ref_eq :
    (r : NodeRef) (s : ℕ)
    → (r.spoke == s && r.index == 0) ≡ true
    → record { spoke = s; index = 0 } ≡ r
ref_eq r s e = ground arith

-- The free list changes, and the rest stays as it is taken out.
free-Takes : (w w' : Wheel) (n m : Node) → Takes w n w' → Takes w n (free_node m w')
unfolding free_node
free-Takes w w' n m t = record {
  inv = relist-Inv w' _ t.inv;
  rest = t.rest;
  count = t.count;
  same_res = t.same_res;
  same_spokes = t.same_spokes;
  grows = record { bits = t.grows.bits; spokes = t.grows.spokes; counters = t.grows.counters };
}

recalc-free :
    (t : TimeValue) (n : Node) (w : Wheel)
    → recalc_earliest t (free_node n w) ≡ free_node n (recalc_earliest t w)
unfolding recalc_earliest free_node is_empty
recalc-free t n w = ground arith

-- The node at the place that was found goes, with a new search where it was the earliest.
cancel-Takes :
    (r : NodeRef) (w : Wheel) (n : Node)
    → Inv w
    → r.spoke < w.spoke_count
    → node_at w r ≡ some n
    → r.index < length (nodes_of w.spokes r.spoke)
    → let cancelled = free_node n (unlink r w) in
      Takes w n (
        if r.spoke == w.earliest_spoke && r.index == 0
        then recalc_earliest n.timer_value cancelled
        else cancelled)
cancel-Takes r w n v inside at_ref linked =
    elim (Bool-cases (r.spoke == w.earliest_spoke && r.index == 0)) [
      | inl e ↦
          rw (e, recalc-free) (free-Takes w _ n n (head-Takes r w n v (ref_eq r _ e) at_ref linked))
      | inr e ↦ rw e (free-Takes w _ n n (unlink-Takes r w n v inside at_ref linked e))
    ]

-- No timer has the id and nothing changes, or exactly one timer goes, which has the id, and its
-- arguments are handed back.
abbrev pub Cancels : ℤ → Wheel → Run (Option (ℕ × ℕ) × Wheel) → Type 0
Cancels id w result =
    ((result ≡ some (none, w)) × ((i : ℕ) → i < w.spoke_count → Lacks id (nodes_of w.spokes i)))
    ⊎ ((n : Node) × (w' : Wheel) × (n.timer_id ≡ id)
        × (result ≡ some (some (n.act1, n.act2), w'))
        × Takes w n w')

-- `cancel_timer` meets no null pointer, on a wheel that is right and for an id that is not -1.
-- Either no timer has the id and nothing changes, or exactly one timer goes, which has the id, and
-- its arguments are handed back; the wheel that is left is right.
pub cancel_timer-Cancels :
    (id : ℤ) (w : Wheel) → Inv w → id ≢ negsuc 0 → Cancels id w (cancel_timer id w)
unfolding cancel_timer
cancel_timer-Cancels id w v d =
    found (find_node w id) refl (find_node-Tells w id (omega (arith, v.built.inside)) d)
  where
    found :
        (o : Option NodeRef)
        → find_node w id ≡ o
        → Tells w id (λ i. i < w.spoke_count) o
        → Cancels id w (cancel_timer id w)
    found none e t = inl (rw (e, cancel_timer), t)
    found (some r) e (inside, (n, at_ref, same, linked)) =
        inr (n, _, same, rw (e, cancel_timer, at_ref), cancel-Takes r w n v inside at_ref linked)
