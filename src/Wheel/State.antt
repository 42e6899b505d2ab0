-- ===== src/Wheel/State.antt =====
-- The state of a TimerWheel, its construction, and the reads that its operations share.
-- `m_mutex` is recursive and held through each public operation: an operation is one step.
use exc.Common.{
  ℕ, zero, suc, ◌+◌, ◌-◌, ◌/◌, ◌%◌, ◌^◌, Bool, if◌then◌else◌, ◌==◌, List, [], ◌∷◌, ◌++◌, Option,
  none, some, ℤ, pos, negsuc, get_or, set,
}
use exc.Time.{TimeValue, zero_time, msec, of_msec}
use exc.FreeList
use exc.FreeList.{FreeList}
use exc.Wheel.Node.{Node, Spoke, no_spoke, find_id}
use exc.Wheel.Sizing.{power2bits}

-- `max_per_spoke_` is never used.
pub record Wheel : Type 0 where
  pub spokes : List Spoke
  pub spoke_count : ℕ
  pub spoke_bits : ℕ
  pub res_bits : ℕ
  pub earliest_spoke : ℕ
  pub wheel_time : TimeValue
  pub timer_count : ℕ
  pub free_list : FreeList

-- A place in the wheel, for a pointer to a node that is linked in.
pub record NodeRef : Type 0 where
  pub spoke : ℕ
  pub index : ℕ

-- `none` is a read or write through a null pointer.
abbrev pub Run : Type 0 → Type 0
Run A = Option A

infixl 5 ◌>>=◌
abbrev pub ◌>>=◌ : {A B : Type 0} → Run A → (A → Run B) → Run B
none >>= f = none
some a >>= f = f a

abbrev pub nodes_of : List Spoke → ℕ → List Node
nodes_of spokes i = (get_or spokes i no_spoke).nodes

abbrev pub set_nodes : List Spoke → ℕ → List Node → List Spoke
set_nodes spokes i ns = set spokes i (record (get_or spokes i no_spoke) { nodes = ns })

-- The loop of `open_i` that makes the roots.
unfoldable pub make_roots : ℕ → List Spoke → FreeList → Run (List Spoke × FreeList)
unfolding FreeList.remove
make_roots zero made f = some (made, f)
make_roots (suc n) made f =
    let taken = FreeList.remove f in
    taken.0 >>= λ root.
    make_roots n (made ++ record { root = root; counter = 0; next_cnt = 0; nodes = [] } ∷ [])
      taken.1

-- TimerWheel and open_i. `none` is also that power2bits does not end.
unfoldable pub new : ℕ → ℕ → ℕ → FreeList → Run Wheel
new spokes res prealloc free_list = power2bits spokes 3 12 >>= λ spoke_bits.
    power2bits res 1 20 >>= λ res_bits.
    make_roots (2 ^ spoke_bits) [] (FreeList.resize (prealloc + 2 ^ spoke_bits) free_list)
    >>= λ made. some (record {
      spokes = made.0;
      spoke_count = 2 ^ spoke_bits;
      spoke_bits = spoke_bits;
      res_bits = res_bits;
      earliest_spoke = 0;
      wheel_time = of_msec (pos (2 ^ res_bits));
      timer_count = 0;
      free_list = made.1;
    })

-- `& (spoke_count_ - 1)`, at a power of two.
abbrev pub mask : ℕ → ℕ → ℕ
mask x count = x % count

unfoldable pub calculate_spoke : Wheel → TimeValue → ℕ
unfolding msec
calculate_spoke w t = mask (msec t / 2 ^ w.res_bits) w.spoke_count

-- `alloc_node` and `free_node`
unfoldable pub alloc_node : Wheel → Option ℕ × Wheel
unfolding FreeList.remove
alloc_node w =
    let taken = FreeList.remove w.free_list in (taken.0, record w { free_list = taken.1 })

unfoldable pub free_node : Node → Wheel → Wheel
unfolding FreeList.add
free_node n w = record w { free_list = FreeList.add n.addr w.free_list }

-- The destructor: the nodes of each spoke go back to the pool, which outlives the wheel.
unfoldable pub free_nodes : List Node → Wheel → Wheel
unfolding free_node
free_nodes [] w = w
free_nodes (n ∷ ns) w = free_nodes ns (free_node n w)

unfoldable pub free_spokes : List Spoke → Wheel → Wheel
unfolding free_nodes
free_spokes [] w = w
free_spokes (s ∷ ss) w = free_spokes ss (free_nodes s.nodes w)

unfoldable pub destroy : Wheel → FreeList
unfolding free_spokes
destroy w = (free_spokes w.spokes w).free_list

unfoldable pub is_empty : Wheel → Bool
is_empty w = w.timer_count == 0

unfoldable pub head? : List Node → Option Node
head? [] = none
head? (n ∷ ns) = some n

-- get_first_i and get_first
unfoldable pub get_first : Wheel → Option Node
unfolding head?
get_first w = head? (nodes_of w.spokes w.earliest_spoke)

unfoldable pub time_of : Option Node → TimeValue
time_of none = zero_time
time_of (some n) = n.timer_value

unfoldable pub earliest_time : Wheel → TimeValue
unfolding time_of get_first
earliest_time w = time_of (get_first w)

unfoldable pub ref_in : ℕ → Option ℕ → Option NodeRef
ref_in s none = none
ref_in s (some i) = some (record { spoke = s; index = i })

-- find_spoke_node
unfoldable pub find_spoke_node : Wheel → ℕ → ℤ → Option NodeRef
unfolding find_id ref_in
find_spoke_node w s id = ref_in s (find_id id (nodes_of w.spokes s))

-- The loop over the other spokes, from the one with `rounds` to go.
unfoldable pub find_rest : Wheel → ℕ → ℤ → ℕ → ℕ → Option NodeRef
unfolding find_spoke_node
find_rest w start id zero i = none
find_rest w start id (suc rounds) i =
    let rest = find_rest w start id rounds (i + 1) in
    if i == start then rest else elim (find_spoke_node w i id) [ none ↦ rest | some r ↦ some r ]

-- `timer_id & spoke_mask`, also of a negative id.
unfoldable pub low_bits : ℤ → ℕ → ℕ
low_bits (pos n) count = mask n count
low_bits (negsuc n) count = count - 1 - mask n count

-- First the spoke that the id names, then the others.
unfoldable pub search_all : Wheel → ℤ → ℕ → Option NodeRef
unfolding find_spoke_node find_rest
search_all w id start = elim (find_spoke_node w start id) [
  | none ↦ find_rest w start id w.spoke_count 0
  | some r ↦ some r
]

unfoldable pub find_node : Wheel → ℤ → Option NodeRef
unfolding search_all low_bits
find_node w (negsuc zero) = none
find_node w id = search_all w id (low_bits id w.spoke_count)
