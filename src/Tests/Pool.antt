-- ===== src/Tests/Pool.antt =====
-- The free list on a small pool.
use exc.Common.{ℕ, ◌≡◌, ◌≢◌, refl, arith, some, [], ◌∷◌}
use exc.FreeList.{FreeList, with_pool, new, remove, alloc, push_new, take_first, refill}
use exc.FreeList.Laws.{IsSound, IsOut, remove_lem, new-IsSound}

-- Three nodes, 10, 11 and 12; one is at most left, and at most four are kept.
abbrev pool : FreeList
pool = record {
  mode = with_pool;
  free_list = 12 ∷ 11 ∷ 10 ∷ [];
  lwm = 1;
  hwm = 4;
  inc = 2;
  size = 3;
  fresh = 13;
  deleted = [];
}

new_test : new with_pool 3 1 4 2 10 ≡ pool
unfolding new alloc push_new
new_test = refl

pool-IsSound : IsSound pool
unfolding new alloc push_new
pool-IsSound = (new-IsSound with_pool 3 1 4 2 10).0

abbrev taken : FreeList
taken = record pool { free_list = 11 ∷ 10 ∷ []; size = 2 }

remove_test : remove pool ≡ (some 12, taken)
unfolding remove refill take_first
remove_test = refl

taken_lem : IsSound taken × IsOut 12 taken
unfolding remove refill take_first
taken_lem =
    let (a, e, s, _, _, _) = remove_lem pool pool-IsSound refl (omega arith) in
    (s, (omega arith, refl, refl))

take_example :
    (a : ℕ) × ((remove pool).0 ≡ some a)
    × IsSound (remove pool).1
    × IsOut a (remove pool).1
    × ((refill pool).free_list ≡ a ∷ (remove pool).1.free_list)
    × ((b : ℕ) → IsOut b pool → (b ≢ a) × IsOut b (remove pool).1)
take_example = remove_lem pool pool-IsSound refl (omega arith)
