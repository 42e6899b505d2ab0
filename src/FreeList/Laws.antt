-- ===== src/FreeList/Laws.antt =====
-- The free list counts its nodes, and never hands out or keeps a node twice.
use exc.Common.{
  ℕ, zero, suc, ◌+◌, ◌-◌, ◌≤◌, ◌<◌, ◌≡◌, ◌≢◌, refl, ap, ◌∙◌, inl, inr, List, [], ◌∷◌, some, arith,
  length, false, Bool-cases, ltb, leb, ◌==◌, if◌then◌else◌, ◌||◌, ◌&&◌, not,
}
use exc.FreeList.{
  FreeList, Mode, push_new, alloc, drop_first, dealloc_from, dealloc, new, add, refill, take_first,
  remove, resize, is_pure,
}

-- How often a node is in a list.
abbrev pub count : ℕ → List ℕ → ℕ
count a [] = 0
count a (x ∷ xs) = (if a == x then 1 else 0) + count a xs

-- A node is at most once among the free and the deleted ones, and there only if it was made.
pub record IsSound (f : FreeList) : Type 0 where
  pub counted : f.size ≡ length f.free_list
  pub once : (a : ℕ) → count a f.free_list + count a f.deleted ≤ 1
  pub made : (a : ℕ) → f.fresh ≤ a → count a f.free_list + count a f.deleted ≡ 0

push_new-IsSound : (f : FreeList) → IsSound f → IsSound (push_new f)
unfolding push_new
push_new-IsSound f h = record {
  counted = omega (arith, h.counted);
  once = λ a. ground (arith, h.once a, h.made a);
  made = λ a k. ground (arith, h.made a);
}

alloc_lem :
    (n : ℕ) (f : FreeList)
    → IsSound f
    → IsSound (alloc n f)
      × ((alloc n f).size ≡ f.size + n)
      × ((alloc n f).fresh ≡ f.fresh + n)
      × ((alloc n f).mode ≡ f.mode)
unfolding alloc push_new
alloc_lem zero f h = (h, omega arith, omega arith, refl)
alloc_lem (suc n) f h =
    let (s, size, fresh, mode) = alloc_lem n (push_new f) (push_new-IsSound f h) in
    (s, omega arith, omega arith, mode)

drop_first-IsSound :
    (x : ℕ) (xs : List ℕ) (f : FreeList)
    → f.free_list ≡ x ∷ xs
    → IsSound f
    → IsSound (drop_first x xs f)
unfolding drop_first
drop_first-IsSound x xs f e h = record {
  counted = omega (arith, h.counted, ap length e);
  once = λ a. omega (arith, h.once a, ap (count a) e);
  made = λ a k. omega (arith, h.made a k, ap (count a) e);
}

dealloc_lem :
    (n : ℕ) (xs : List ℕ) (f : FreeList)
    → f.free_list ≡ xs
    → IsSound f
    → n ≤ f.size
    → IsSound (dealloc_from n xs f) × ((dealloc_from n xs f).size + n ≡ f.size)
unfolding dealloc_from drop_first
dealloc_lem zero xs f e h k = (h, omega arith)
dealloc_lem (suc n) [] f e h k = absurd (omega (arith, h.counted, ap length e))
dealloc_lem (suc n) (x ∷ xs) f e h k =
    let (s, size) =
      dealloc_lem n xs (drop_first x xs f) refl (drop_first-IsSound x xs f e h) (omega arith) in
    (s, omega arith)

-- A node that was made, and is neither free nor deleted: its owner is outside the list.
abbrev pub IsOut : ℕ → FreeList → Type 0
IsOut a f = (a < f.fresh) × (count a f.free_list ≡ 0) × (count a f.deleted ≡ 0)

push_new-IsOut : (b : ℕ) (f : FreeList) → IsOut b f → IsOut b (push_new f)
unfolding push_new
push_new-IsOut b f (made, free, kept) = (omega arith, ground arith, kept)

alloc-IsOut : (n b : ℕ) (f : FreeList) → IsOut b f → IsOut b (alloc n f)
unfolding alloc
alloc-IsOut zero b f o = o
alloc-IsOut (suc n) b f o = alloc-IsOut n b (push_new f) (push_new-IsOut b f o)

refill-IsOut : (b : ℕ) (f : FreeList) → IsOut b f → IsOut b (refill f)
unfolding refill
refill-IsOut b f o = elim (Bool-cases (not (is_pure f.mode) && leb f.size f.lwm)) [
  | inl low ↦ rw low (alloc-IsOut f.inc b f o)
  | inr full ↦ rw full o
]

refill_lem :
    (f : FreeList)
    → IsSound f
    → is_pure f.mode ≡ false
    → 0 < f.inc
    → IsSound (refill f) × (0 < (refill f).size)
unfolding refill
refill_lem f h m k =
    let (s, size, fresh, mode) = alloc_lem f.inc f h in
    elim (Bool-cases (leb f.size f.lwm)) [
      | inl e ↦ rw (m, e) (s, omega arith)
      | inr e ↦ rw (m, e) (h, ground arith)
    ]

take_first_lem :
    (xs : List ℕ) (f : FreeList)
    → f.free_list ≡ xs
    → IsSound f
    → 0 < f.size
    → (a : ℕ) × ((take_first xs f).0 ≡ some a)
      × IsSound (take_first xs f).1
      × IsOut a (take_first xs f).1
      × (f.free_list ≡ a ∷ (take_first xs f).1.free_list)
      × ((b : ℕ) → IsOut b f → (b ≢ a) × IsOut b (take_first xs f).1)
unfolding take_first
take_first_lem [] f e h k = absurd (omega (arith, h.counted, ap length e))
take_first_lem (x ∷ xs) f e h k = (
  x,
  refl,
  record {
    counted = omega (arith, h.counted, ap length e);
    once = λ a. omega (arith, h.once a, ap (count a) e);
    made = λ a l. omega (arith, h.made a l, ap (count a) e);
  },
  (
    ground (arith, h.made x, ap (count x) e),
    ground (arith, h.once x, ap (count x) e),
    ground (arith, h.once x, ap (count x) e),
  ),
  e,
  λ b (made, free, kept). (
    λ same. let held = ap (count b) e in absurd (ground (arith, same, held, free)),
    (made, let held = ap (count b) e in omega (arith, held, free), kept),
  ),
)

-- In pool mode with a positive increment `remove` never returns the null pointer: it takes the first
-- node out of the list, filled up before if it was low, and the list stays sound. The node is then
-- out, and is none of those that were out before, at another owner; they all stay out.
pub remove_lem :
    (f : FreeList)
    → IsSound f
    → is_pure f.mode ≡ false
    → 0 < f.inc
    → (a : ℕ) × ((remove f).0 ≡ some a)
      × IsSound (remove f).1
      × IsOut a (remove f).1
      × ((refill f).free_list ≡ a ∷ (remove f).1.free_list)
      × ((b : ℕ) → IsOut b f → (b ≢ a) × IsOut b (remove f).1)
unfolding remove
remove_lem f h m k =
    let (s, some_left) = refill_lem f h m k in
    let (a, taken, sound, out, first, others) =
      take_first_lem (refill f).free_list (refill f) refl s some_left in
    (a, taken, sound, out, first, λ b o. others b (refill-IsOut b f o))

-- `add` keeps the list sound if the node was out.
pub add-IsSound : (a : ℕ) (f : FreeList) → IsSound f → IsOut a f → IsSound (add a f)
unfolding add
add-IsSound a f h o = elim (Bool-cases (is_pure f.mode || ltb f.size f.hwm)) [
  | inl e ↦ rw e (record {
    counted = omega (arith, h.counted);
    once = λ b. ground (arith, h.once b);
    made = λ b k. ground (arith, h.made b);
  })
  | inr e ↦ rw e (record {
    counted = h.counted;
    once = λ b. ground (arith, h.once b);
    made = λ b k. ground (arith, h.made b);
  })
]

-- In pool mode `add` never takes the list beyond the high water mark.
pub add-hwm :
    (a : ℕ) (f : FreeList) → is_pure f.mode ≡ false → f.size ≤ f.hwm → (add a f).size ≤ f.hwm
unfolding add
add-hwm a f m h = rw m (ground arith)

-- `resize` reaches exactly the size that is asked for, in pool mode.
pub resize-size :
    (n : ℕ) (f : FreeList)
    → IsSound f
    → is_pure f.mode ≡ false
    → IsSound (resize n f) × ((resize n f).size ≡ n)
unfolding resize dealloc
resize-size n f h m =
    let (s, size, fresh, mode) = alloc_lem (n - f.size) f h in
    elim (Bool-cases (ltb n f.size)) [
      | inl e ↦
          let small : n < f.size = ground arith in
          let (t, left) = dealloc_lem (f.size - n) f.free_list f refl h (omega arith) in
          rw (m, e) (t, omega arith)
      | inr e ↦ let large : f.size ≤ n = ground arith in rw (m, e) (s, omega arith)
    ]

alloc-frame :
    (n : ℕ) (f : FreeList)
    → ((alloc n f).mode ≡ f.mode) × ((alloc n f).inc ≡ f.inc) × ((alloc n f).lwm ≡ f.lwm)
unfolding alloc push_new
alloc-frame zero f = (refl, refl, refl)
alloc-frame (suc n) f = alloc-frame n (push_new f)

take_first-frame :
    (xs : List ℕ) (f : FreeList)
    → ((take_first xs f).1.mode ≡ f.mode) × ((take_first xs f).1.inc ≡ f.inc)
unfolding take_first
take_first-frame [] f = (refl, refl)
take_first-frame (x ∷ xs) f = (refl, refl)

refill-frame : (f : FreeList) → ((refill f).mode ≡ f.mode) × ((refill f).inc ≡ f.inc)
unfolding refill
refill-frame f = let e = alloc-frame f.inc f in ground arith

-- `remove` changes neither the mode nor the increment.
pub remove-frame : (f : FreeList) → ((remove f).1.mode ≡ f.mode) × ((remove f).1.inc ≡ f.inc)
unfolding remove
remove-frame f =
    let a = refill-frame f in
    let b = take_first-frame (refill f).free_list (refill f) in (b.0 ∙ a.0, b.1 ∙ a.1)

dealloc-frame :
    (n : ℕ) (xs : List ℕ) (f : FreeList)
    → ((dealloc_from n xs f).mode ≡ f.mode) × ((dealloc_from n xs f).inc ≡ f.inc)
unfolding dealloc_from drop_first
dealloc-frame zero xs f = (refl, refl)
dealloc-frame (suc n) [] f = (refl, refl)
dealloc-frame (suc n) (x ∷ xs) f = dealloc-frame n xs (drop_first x xs f)

pub resize-frame :
    (n : ℕ) (f : FreeList) → ((resize n f).mode ≡ f.mode) × ((resize n f).inc ≡ f.inc)
unfolding resize dealloc
resize-frame n f =
    let a = alloc-frame (n - f.size) f in
    let b = dealloc-frame (f.size - n) f.free_list f in ground arith

-- The constructor leaves a sound list with the nodes that were asked for.
pub new-IsSound :
    (mode : Mode) (prealloc lwm hwm inc fresh : ℕ)
    → let f = new mode prealloc lwm hwm inc fresh in
      IsSound f × (f.size ≡ prealloc) × (f.mode ≡ mode) × (f.inc ≡ inc)
unfolding new
new-IsSound mode prealloc lwm hwm inc fresh =
    let f : FreeList = record {
      mode = mode;
      free_list = [];
      lwm = lwm;
      hwm = hwm;
      inc = inc;
      size = 0;
      fresh = fresh;
      deleted = [];
    } in
    let (s, size, _, m) =
      alloc_lem prealloc f
        (record { counted = refl; once = λ a. omega arith; made = λ a k. refl }) in
    (s, omega (arith, size), m, (alloc-frame prealloc f).1)
