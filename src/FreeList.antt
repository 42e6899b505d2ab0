-- ===== src/FreeList.antt =====
-- comLib/dhntimer/Free_List.h: DHN_Locked_Free_List, the pool of timer nodes.
-- A node is the number that `new T` gave it; the next one is in `fresh`, and `deleted` holds what
-- `delete` was called on. `free_list` is the chain from `free_list_` along `get_next()`.
pub mod Laws
pub mod Destroy
use exc.Common.{
  ℕ, zero, suc, ◌+◌, ◌-◌, Bool, true, false, ◌&&◌, ◌||◌, not, if◌then◌else◌, ltb, leb, ◌==◌, List,
  [], ◌∷◌, Option, none, some,
}

-- DHN_FREE_LIST_WITH_POOL and DHN_PURE_FREE_LIST
pub data Mode : Type 0 where
  with_pool pure_list : Mode

abbrev pub is_pure : Mode → Bool
is_pure with_pool = false
is_pure pure_list = true

pub record FreeList : Type 0 where
  pub mode : Mode
  pub free_list : List ℕ
  pub lwm : ℕ
  pub hwm : ℕ
  pub inc : ℕ
  pub size : ℕ
  pub fresh : ℕ
  pub deleted : List ℕ

-- One round of `alloc`.
unfoldable pub push_new : FreeList → FreeList
push_new f = record f { free_list = f.fresh ∷ f.free_list; size = f.size + 1; fresh = f.fresh + 1 }

unfoldable pub alloc : ℕ → FreeList → FreeList
alloc zero f = f
alloc (suc n) f = alloc n (push_new f)

-- One round of `dealloc`, at the node on top.
unfoldable pub drop_first : ℕ → List ℕ → FreeList → FreeList
drop_first x rest f = record f { free_list = rest; size = f.size - 1; deleted = x ∷ f.deleted }

dealloc_from : ℕ → List ℕ → FreeList → FreeList
unfolding drop_first
dealloc_from zero xs f = f
dealloc_from (suc n) [] f = f
dealloc_from (suc n) (x ∷ xs) f = dealloc_from n xs (drop_first x xs f)

unfoldable pub dealloc : ℕ → FreeList → FreeList
unfolding dealloc_from
dealloc n f = dealloc_from n f.free_list f

-- The constructor, with the addresses that the allocator will give out.
unfoldable pub new : Mode → ℕ → ℕ → ℕ → ℕ → ℕ → FreeList
new mode prealloc lwm hwm inc fresh = alloc prealloc (record {
  mode = mode;
  free_list = [];
  lwm = lwm;
  hwm = hwm;
  inc = inc;
  size = 0;
  fresh = fresh;
  deleted = [];
})

unfoldable pub add : ℕ → FreeList → FreeList
add element f =
    if is_pure f.mode || ltb f.size f.hwm
    then record f { free_list = element ∷ f.free_list; size = f.size + 1 }
    else record f { deleted = element ∷ f.deleted }

-- The test at the start of `remove`.
unfoldable pub refill : FreeList → FreeList
refill f = if not (is_pure f.mode) && leb f.size f.lwm then alloc f.inc f else f

unfoldable pub take_first : List ℕ → FreeList → Option ℕ × FreeList
take_first [] f = (none, f)
take_first (x ∷ rest) f = (some x, record f { free_list = rest; size = f.size - 1 })

-- `none` is the null pointer.
unfoldable pub remove : FreeList → Option ℕ × FreeList
unfolding refill take_first
remove f = let g = refill f in take_first g.free_list g

unfoldable pub resize : ℕ → FreeList → FreeList
resize newsize f =
    if not (is_pure f.mode)
    then (if ltb newsize f.size then dealloc (f.size - newsize) f else alloc (newsize - f.size) f)
    else f

-- The loop of the destructor, which leaves `size_` alone.
unfoldable pub delete_all : List ℕ → FreeList → FreeList
delete_all [] f = f
delete_all (x ∷ rest) f = delete_all rest (record f { free_list = rest; deleted = x ∷ f.deleted })

-- The destructor: of a pool that is not pure, every node in it is deleted.
unfoldable pub destroy : FreeList → FreeList
unfolding delete_all
destroy f = if not (is_pure f.mode) then delete_all f.free_list f else f
