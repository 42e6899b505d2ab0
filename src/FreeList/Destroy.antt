-- ===== src/FreeList/Destroy.antt =====
-- The destructor of the free list.
use exc.Common.{ℕ, ◌+◌, ◌≤◌, ◌≡◌, refl, ap, List, [], ◌∷◌, arith, false}
use exc.FreeList.{FreeList, is_pure, delete_all, destroy}
use exc.FreeList.Laws.{count, IsSound}

delete_all_lem :
    (xs : List ℕ) (f : FreeList)
    → f.free_list ≡ xs
    → ((delete_all xs f).free_list ≡ [])
      × ((a : ℕ) → count a (delete_all xs f).deleted ≡ count a f.free_list + count a f.deleted)
unfolding delete_all
delete_all_lem [] f e = (e, λ a. omega (arith, ap (count a) e))
delete_all_lem (x ∷ rest) f e =
    let g = record f { free_list = rest; deleted = x ∷ f.deleted } in
    let (nil, counts) = delete_all_lem rest g refl in
    (nil, λ a. omega (arith, counts a, ap (count a) e))

-- The destructor of a sound pool that is not pure deletes every node in the pool, and no node has
-- been deleted twice at its end.
pub destroy_lem :
    (f : FreeList)
    → IsSound f
    → is_pure f.mode ≡ false
    → ((destroy f).free_list ≡ [])
      × ((a : ℕ) → count a f.free_list ≤ count a (destroy f).deleted)
      × ((a : ℕ) → count a (destroy f).deleted ≤ 1)
unfolding destroy
destroy_lem f h p =
    let (nil, counts) = delete_all_lem f.free_list f refl in
    rw p (nil, λ a. omega (arith, counts a), λ a. omega (arith, counts a, h.once a))
