-- ===== src/Wheel/Node.antt =====
-- DHN_Timer_Node_T and one spoke of the wheel. The circular doubly linked list of a spoke is the
-- list of its nodes, from `root->get_next()` on; the root's own fields are those of `Spoke`.
use exc.Common.{
  ℕ, zero, suc, Bool, true, false, if◌then◌else◌, eqb_ℤ, List, [], ◌∷◌, Option, none, some, ℤ,
  length,
}
use exc.Time.{TimeValue, gt}

-- `addr` stands for the node's address, `task` for the pointer `type_` (0 is the null pointer).
pub record Node : Type 0 where
  pub addr : ℕ
  pub task : ℕ
  pub act1 : ℕ
  pub act2 : ℕ
  pub timer_value : TimeValue
  pub interval : TimeValue
  pub timer_id : ℤ

-- The root's `timer_id_` is the spoke's counter, its `act1_` the next counter in use.
pub record Spoke : Type 0 where
  pub root : ℕ
  pub counter : ℕ
  pub next_cnt : ℕ
  pub nodes : List Node

abbrev pub no_spoke : Spoke
no_spoke = record { root = 0; counter = 0; next_cnt = 0; nodes = [] }

-- Is the node at this place later than `expire`?
unfoldable pub later_at : List Node → ℕ → TimeValue → Bool
unfolding gt
later_at [] i expire = false
later_at (n ∷ ns) zero expire = gt n.timer_value expire
later_at (n ∷ ns) (suc i) expire = later_at ns i expire

-- `while (p != root && p->get_timer_value () > expire) p = p->get_prev ()`: `p` is the node before
-- the place, and the root at place 0.
unfoldable pub walk_back : List Node → TimeValue → ℕ → ℕ
unfolding later_at
walk_back ns expire zero = zero
walk_back ns expire (suc k) = elim (later_at ns k expire) [
  | true ↦ walk_back ns expire k
  | false ↦ suc k
]

-- The four pointer writes that link a node in after `p`.
unfoldable pub link_at : ℕ → Node → List Node → List Node
link_at zero n ns = n ∷ ns
link_at (suc k) n [] = n ∷ []
link_at (suc k) n (m ∷ ns) = m ∷ link_at k n ns

unfoldable pub insert : Node → TimeValue → List Node → List Node
unfolding walk_back link_at
insert n expire ns = link_at (walk_back ns expire (length ns)) n ns

-- The pointer writes of `unlink`.
unfoldable pub unlink_at : ℕ → List Node → List Node
unlink_at i [] = []
unlink_at zero (n ∷ ns) = ns
unlink_at (suc i) (n ∷ ns) = n ∷ unlink_at i ns

-- The place of the first node with this id.
unfoldable pub find_id : ℤ → List Node → Option ℕ
find_id id [] = none
find_id id (n ∷ ns) =
    if eqb_ℤ n.timer_id id
    then some 0
    else elim (find_id id ns) [ none ↦ none | some i ↦ some (suc i) ]
