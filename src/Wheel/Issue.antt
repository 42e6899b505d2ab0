-- ===== src/Wheel/Issue.antt =====
-- `generate_timer_id` before a counter overflows: the id, and the counter that goes with it.

use exc.Common.{
  ℕ, zero, suc, ◌<◌, ◌≡◌, refl, sym, ap, ◌∙◌, List, [], ◌∷◌, ◌++◌, some, arith, length, Bool, true,
  false, ◌==◌, if◌then◌else◌, ==_iff, ◌≤◌, ◌+◌, leb, pos, get_or, set, get_or-set, length-set,
}
use exc.Wheel.Node.{Node, Spoke, no_spoke}
use exc.Wheel.State.{Wheel, nodes_of}
use exc.Wheel.Ids.{join_id, to_int, max_cnt, set_root, reset_next, choose_id, generate_timer_id}
use exc.Wheel.Inv.{total, Inv}
use exc.Wheel.Contents.{all_nodes}
use exc.Wheel.Unique.{counter_of, IsIssued, Grows}

abbrev pub next_of : Wheel → ℕ → ℕ
next_of w s = (get_or w.spokes s no_spoke).next_cnt

reset_next-zero : (ns : List Node) → reset_next ns 0 ≡ 0
unfolding reset_next
reset_next-zero [] = refl
reset_next-zero (n ∷ ns) = refl

choose_id_fast :
    (w : Wheel) (s : ℕ) (r : Spoke) (top : ℕ)
    → r.counter < top
    → choose_id w s r 0 top
      ≡ some (to_int (join_id w.spoke_bits r.counter s), set_root w s (r.counter + 1) 0)
unfolding choose_id
choose_id_fast w s r top h = let e : leb top r.counter ≡ false = ground arith in rw e

-- Before the counter of a spoke has reached its limit, the id is the counter and the spoke.
pub generate_timer_id_lem :
    (w : Wheel) (s : ℕ)
    → s < w.spoke_count
    → next_of w s ≡ 0
    → counter_of w s < max_cnt w.spoke_bits
    → generate_timer_id w s
      ≡ some (to_int (join_id w.spoke_bits (counter_of w s) s), set_root w s (counter_of w s + 1) 0)
unfolding generate_timer_id
generate_timer_id_lem w s h z c =
    let r = get_or w.spokes s no_spoke in
    let inside : (s == w.spoke_count) ≡ false = ground arith in
    let no_next : reset_next r.nodes r.next_cnt ≡ 0 =
      ap (reset_next r.nodes) z ∙ reset_next-zero r.nodes in
    rw (inside, no_next) (choose_id_fast w s r _ (omega arith))

-- The roots' counters are no nodes.
same_nodes :
    (spokes : List Spoke) (s c d i : ℕ)
    → nodes_of (set spokes s (record (get_or spokes s no_spoke) { counter = c; next_cnt = d })) i
      ≡ nodes_of spokes i
same_nodes [] s c d i = refl
same_nodes (x ∷ xs) zero c d zero = refl
same_nodes (x ∷ xs) zero c d (suc i) = refl
same_nodes (x ∷ xs) (suc s) c d zero = refl
same_nodes (x ∷ xs) (suc s) c d (suc i) = same_nodes xs s c d i

pub same_all :
    (spokes : List Spoke) (s c d : ℕ)
    → all_nodes (set spokes s (record (get_or spokes s no_spoke) { counter = c; next_cnt = d }))
      ≡ all_nodes spokes
same_all [] s c d = refl
same_all (x ∷ xs) zero c d = refl
same_all (x ∷ xs) (suc s) c d = ap (λ l. x.nodes ++ l) (same_all xs s c d)

same_total :
    (spokes : List Spoke) (s c d : ℕ)
    → total (set spokes s (record (get_or spokes s no_spoke) { counter = c; next_cnt = d }))
      ≡ total spokes
same_total [] s c d = refl
same_total (x ∷ xs) zero c d = refl
same_total (x ∷ xs) (suc s) c d = ap (λ l. length x.nodes + l) (same_total xs s c d)

pub set_root-Inv : (w : Wheel) (s c d : ℕ) → Inv w → Inv (set_root w s c d)
set_root-Inv w s c d v = record {
  built = record {
    wide = length-set w.spokes s _ ∙ v.built.wide;
    inside = v.built.inside;
    revolution_time = v.built.revolution_time;
    revolution = v.built.revolution;
    counted = v.built.counted ∙ sym (same_total w.spokes s c d);
    countable = v.built.countable;
    fits = λ i k. rw (same_nodes w.spokes s c d i) (v.built.fits i k);
    sorted = λ i k. rw (same_nodes w.spokes s c d i) (v.built.sorted i k);
  };
  first = λ h i k.
      rw (same_nodes w.spokes s c d i, same_nodes w.spokes s c d w.earliest_spoke) (v.first h i k);
}

-- The spoke's counter is one further.
pub set_root-Grows :
    (w : Wheel) (s : ℕ)
    → s < length w.spokes
    → s < w.spoke_count
    → let w' = set_root w s (counter_of w s + 1) 0 in
      Grows w w' × IsIssued w' (pos (join_id w.spoke_bits (counter_of w s) s))
set_root-Grows w s h k =
    let root : Spoke = record (get_or w.spokes s no_spoke) {
      counter = counter_of w s + 1;
      next_cnt = 0;
    } in
    let at = λ (i : ℕ). ap (λ r. r.counter) (get_or-set w.spokes s i root no_spoke h) in
    (
      record { bits = refl; spokes = refl; counters = λ i. later i (s == i) refl (at i) },
      (
        counter_of w s,
        s,
        refl,
        k,
        let q = at s in let e : (s == s) ≡ true = ground arith in passed (s == s) e q,
      ),
    )
  where
    later :
        (i : ℕ) (b : Bool)
        → (s == i) ≡ b
        → counter_of (set_root w s (counter_of w s + 1) 0) i
          ≡ (if b
              then record (get_or w.spokes s no_spoke) {
                counter = counter_of w s + 1;
                next_cnt = 0;
              }
              else get_or w.spokes i no_spoke).counter
        → counter_of w i ≤ counter_of (set_root w s (counter_of w s + 1) 0) i
    later i true e q =
        let d : s ≡ i = (==_iff s i).0 e in let c = ap (counter_of w) d in omega arith
    later i false e q = omega arith

    passed :
        (b : Bool)
        → b ≡ true
        → counter_of (set_root w s (counter_of w s + 1) 0) s
          ≡ (if b
              then record (get_or w.spokes s no_spoke) {
                counter = counter_of w s + 1;
                next_cnt = 0;
              }
              else get_or w.spokes s no_spoke).counter
        → counter_of w s < counter_of (set_root w s (counter_of w s + 1) 0) s
    passed true e q = omega arith
    passed false e q = cc
