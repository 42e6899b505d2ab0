-- ===== src/Wheel/Contents.antt =====
-- Which timers are in the wheel, as a list that is read up to order.
use mathlib.Core.List.{Perm, perm_middle}
use mathlib.Core.List.Perm
use exc.Common.{ℕ, zero, suc, ◌<◌, ◌≡◌, List, [], ◌∷◌, ◌++◌, some, arith, length, get_elem?, set}
use exc.Wheel.Node.{Node, Spoke, link_at, unlink_at}
use exc.Wheel.State.{nodes_of}

abbrev pub all_nodes : List Spoke → List Node
all_nodes [] = []
all_nodes (s ∷ ss) = s.nodes ++ all_nodes ss

pub link_at-perm : (k : ℕ) (n : Node) (ns : List Node) → Perm (link_at k n ns) (n ∷ ns)
unfolding link_at
link_at-perm zero n ns = Perm.refl _
link_at-perm (suc k) n [] = Perm.refl _
link_at-perm (suc k) n (m ∷ ns) = Perm.trans (Perm.cons m (link_at-perm k n ns)) (Perm.swap n m ns)

pub unlink_at-perm :
    (i : ℕ) (n : Node) (ns : List Node) → get_elem? ns i ≡ some n → Perm ns (n ∷ unlink_at i ns)
unfolding unlink_at
unlink_at-perm i n [] h = cc
unlink_at-perm zero n (m ∷ ns) h = rw (some_eq h) (Perm.refl _)
  where
    some_eq : some m ≡ some n → m ≡ n
    some_eq e = cc
unlink_at-perm (suc i) n (m ∷ ns) h =
    Perm.trans (Perm.cons m (unlink_at-perm i n ns h)) (Perm.swap n m _)

-- One more node in a spoke is one more node in the wheel.
pub all_nodes-set :
    (spokes : List Spoke) (i : ℕ) (s : Spoke) (n : Node)
    → i < length spokes
    → Perm s.nodes (n ∷ nodes_of spokes i)
    → Perm (all_nodes (set spokes i s)) (n ∷ all_nodes spokes)
all_nodes-set [] i s n h p = absurd (omega arith)
all_nodes-set (x ∷ xs) zero s n h p = Perm.append p (Perm.refl _)
all_nodes-set (x ∷ xs) (suc i) s n h p =
    Perm.trans (Perm.append_left x.nodes (all_nodes-set xs i s n (omega arith) p))
      (perm_middle x.nodes _)

pub all_nodes-unset :
    (spokes : List Spoke) (i : ℕ) (s : Spoke) (n : Node)
    → i < length spokes
    → Perm (nodes_of spokes i) (n ∷ s.nodes)
    → Perm (all_nodes spokes) (n ∷ all_nodes (set spokes i s))
all_nodes-unset [] i s n h p = absurd (omega arith)
all_nodes-unset (x ∷ xs) zero s n h p = Perm.append p (Perm.refl _)
all_nodes-unset (x ∷ xs) (suc i) s n h p =
    Perm.trans (Perm.append_left x.nodes (all_nodes-unset xs i s n (omega arith) p))
      (perm_middle x.nodes _)
