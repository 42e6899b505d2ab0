-- ===== src/Wheel/Remove.antt =====
-- `remove_first` takes out the earliest timer, and `cancel_timer` the one with the given id.
use mathlib.Core.List.{Perm}
use exc.Common.{
  ℕ, ◌+◌, ◌^◌, ◌≤◌, ◌<◌, ◌≡◌, sym, ap, subst, ◌∙◌, List, ◌∷◌, some, arith, length, All, get_elem?,
}
use exc.Time.{TimeValue}
use exc.Wheel.Node.{Node}
use exc.Wheel.State.{Wheel, NodeRef, ◌>>=◌, nodes_of, earliest_time}
use exc.Wheel.Ops.{unlink, recalc_earliest, remove_first, node_at}
use exc.Wheel.Sorted.{time}
use exc.Wheel.Inv.{Fits, IsBuilt, Inv, IsEarliest, earliest_lem}
use exc.Wheel.Contents.{all_nodes, unlink_at-perm, all_nodes-unset}
use exc.Wheel.Unique.{Grows, Grows-trans, unlink-Grows, recalc-Grows}
use exc.Wheel.Unlink.{unlink-count, unlink-IsBuilt, All-unlink, recalc-Inv}

pub unlink-perm :
    (r : NodeRef) (w : Wheel) (n : Node)
    → IsBuilt w
    → r.spoke < w.spoke_count
    → node_at w r ≡ some n
    → Perm (all_nodes w.spokes) (n ∷ all_nodes (unlink r w).spokes)
unfolding unlink
unlink-perm r w n b h e =
    all_nodes-unset w.spokes r.spoke _ n (rw b.wide h) (unlink_at-perm r.index n _ e)

pub recalc-same :
    (t : TimeValue) (w : Wheel)
    → ((recalc_earliest t w).spokes ≡ w.spokes)
      × ((recalc_earliest t w).timer_count ≡ w.timer_count)
      × ((recalc_earliest t w).res_bits ≡ w.res_bits)
      × ((recalc_earliest t w).spoke_count ≡ w.spoke_count)
unfolding recalc_earliest
recalc-same t w = ground arith

abbrev pub head_ref : Wheel → NodeRef
head_ref w = record { spoke = w.earliest_spoke; index = 0 }

-- Taking the head of the earliest spoke out, and the search after it.
drop_head-Inv :
    (w : Wheel) (n : Node) (ns : List Node)
    → Inv w
    → IsEarliest w n ns
    → Inv (recalc_earliest n.timer_value (unlink (head_ref w) w))
drop_head-Inv w n ns v q =
    let b = v.built in
    let linked : 0 < length (nodes_of w.spokes w.earliest_spoke) = rw q.nodes (omega arith) in
    recalc-Inv n.timer_value (unlink (head_ref w) w)
      (unlink-IsBuilt (head_ref w) w b b.inside linked) q.fit.is_time
      (unfold unlink in sym q.fit.placed)
      (λ i k. All-unlink (head_ref w) w b b.inside linked _ q.least i (unfold unlink in k))

-- `w'` is `w` without the timer `n`.
pub record Takes (w : Wheel) (n : Node) (w' : Wheel) : Type 0 where
  pub inv : Inv w'
  pub rest : Perm (all_nodes w.spokes) (n ∷ all_nodes w'.spokes)
  pub count : w'.timer_count + 1 ≡ w.timer_count
  pub same_res : w'.res_bits ≡ w.res_bits
  pub same_spokes : w'.spoke_count ≡ w.spoke_count
  pub grows : Grows w w'

pub head_Takes :
    (w : Wheel) (n : Node) (ns : List Node)
    → Inv w
    → IsEarliest w n ns
    → Takes w n (recalc_earliest n.timer_value (unlink (head_ref w) w))
head_Takes w n ns v q =
    let b = v.built in
    let u = unlink (head_ref w) w in
    let linked : 0 < length (nodes_of w.spokes w.earliest_spoke) = rw q.nodes (omega arith) in
    let at_head : node_at w (head_ref w) ≡ some n = ap (λ xs. get_elem? xs 0) q.nodes in
    record {
      inv = drop_head-Inv w n ns v q;
      rest =
          subst (λ s. Perm (all_nodes w.spokes) (n ∷ all_nodes s))
            (sym (recalc-same n.timer_value u).0) (unlink-perm (head_ref w) w n b b.inside at_head);
      count =
          ap (λ k. k + 1) (recalc-same n.timer_value u).1
          ∙ unlink-count (head_ref w) w b b.inside linked;
      same_res = unfold unlink in (recalc-same n.timer_value u).2;
      same_spokes = unfold unlink in (recalc-same n.timer_value u).3;
      grows = Grows-trans w u _ (unlink-Grows (head_ref w) w) (recalc-Grows n.timer_value u);
    }

-- From a wheel with timers `remove_first` meets no null pointer: it takes out one that is not
-- later than any other, and the others stay in a wheel that is right.
pub remove_first_lem :
    (w : Wheel)
    → Inv w
    → 0 < w.timer_count
    → (n : Node) × (w' : Wheel) × (remove_first w ≡ some (some n, w'))
      × Takes w n w'
      × Fits (2 ^ w.res_bits) w.spoke_count w.earliest_spoke n
      × (earliest_time w ≡ n.timer_value)
      × ((i : ℕ) → i < w.spoke_count → All (λ m. time n ≤ time m) (nodes_of w.spokes i))
unfolding remove_first
remove_first_lem w v h =
    let (n, ns, q) = earliest_lem w v h in
    (
      n,
      recalc_earliest n.timer_value (unlink (head_ref w) w),
      rw (q.found, ◌>>=◌) (ground arith),
      head_Takes w n ns v q,
      q.fit,
      q.at_time,
      q.least,
    )
