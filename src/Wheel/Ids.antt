-- ===== src/Wheel/Ids.antt =====
-- TimerWheel::generate_timer_id. `long` has 64 bits and `int` 32.
use exc.Common.{
  ℕ, zero, suc, ◌+◌, ◌-◌, ◌*◌, ◌%◌, ◌^◌, Bool, true, false, ◌&&◌, ◌||◌, if◌then◌else◌, ltb, leb,
  ◌==◌, List, [], ◌∷◌, none, some, ℤ, pos, negsuc, sub_ℕ, get_or, set,
}
use exc.Wheel.Node.{Node, Spoke, no_spoke}
use exc.Wheel.State.{Wheel, Run, find_spoke_node}

-- `(cnt << spoke_bits_) | spoke`: the spoke is below 2 ^ spoke_bits_.
abbrev pub join_id : ℕ → ℕ → ℕ → ℕ
join_id bits cnt spoke = cnt * 2 ^ bits + spoke

-- What an `int` keeps of a `long` that is not negative.
unfoldable pub to_int : ℕ → ℤ
to_int n = let low = n % 2 ^ 32 in if ltb low (2 ^ 31) then pos low else sub_ℕ low (2 ^ 32)

-- `((long)1 << cnt_bits) - 1`
abbrev pub max_cnt : ℕ → ℕ
max_cnt bits = 2 ^ (64 - bits) - 1

abbrev pub set_root : Wheel → ℕ → ℕ → ℕ → Wheel
set_root w s counter next_cnt = record w {
  spokes =
      set w.spokes s
        (record (get_or w.spokes s no_spoke) { counter = counter; next_cnt = next_cnt });
}

-- `if (root == root->get_next ()) root->set_act1 (0)`
unfoldable pub reset_next : List Node → ℕ → ℕ
reset_next [] next_cnt = 0
reset_next (n ∷ ns) next_cnt = next_cnt

unfoldable pub is_nil : List Node → Bool
is_nil [] = true
is_nil (n ∷ ns) = false

-- The loop over the counters. At a free one the code goes on from `n`, which is null there.
unfoldable pub search_counter : Wheel → ℕ → ℕ → ℕ → Run (ℤ × Wheel)
unfolding find_spoke_node
search_counter w s zero cnt = some (negsuc 0, w)
search_counter w s (suc rounds) cnt =
    elim (find_spoke_node w s (pos (join_id w.spoke_bits cnt s))) [
      | none ↦ none
      | some r ↦ search_counter w s rounds (cnt + 1)
    ]

-- The branches behind the reset, for the spoke `r` with the counter in `next_cnt`.
unfoldable pub choose_id : Wheel → ℕ → Spoke → ℕ → ℕ → Run (ℤ × Wheel)
unfolding to_int is_nil
choose_id w s r next_cnt top =
    if leb top r.counter && is_nil r.nodes
    then some (pos s, set_root w s 1 next_cnt)
    else if leb top r.counter
    then search_counter (set_root w s r.counter next_cnt) s (top - 1) 0
    else if next_cnt == 0 || ltb r.counter next_cnt
    then some (to_int (join_id w.spoke_bits r.counter s), set_root w s (r.counter + 1) next_cnt)
    else search_counter (set_root w s r.counter next_cnt) s (top - 1 - r.counter) r.counter

-- The limit is one less for the spoke `spoke_count_`, which does not exist.
unfoldable pub generate_timer_id : Wheel → ℕ → Run (ℤ × Wheel)
unfolding choose_id reset_next
generate_timer_id w s =
    let r = get_or w.spokes s no_spoke in
    let top = max_cnt w.spoke_bits - (if s == w.spoke_count then 1 else 0) in
    choose_id w s r (reset_next r.nodes r.next_cnt) top
