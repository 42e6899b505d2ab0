-- ===== src/Wheel/Create.antt =====
-- The constructor of a wheel: empty, and right from the start.
use exc.Common.{
  Bool, ℕ, zero, suc, ◌+◌, ◌*◌, ◌^◌, ◌/◌, ◌==◌, ◌≤◌, ◌<◌, ◌≡◌, refl, sym, ap, List, [], ◌∷◌, ◌++◌,
  some, arith, length, length-append, All, true, false, pos, ltb, leb, ◌-◌, Bool-cases, inl, inr,
}
use native.Mathlib.Nat.{pow-suc}
use exc.FreeList
use exc.FreeList.{FreeList, is_pure}
use exc.FreeList.Laws.{IsSound, remove_lem, remove-frame, resize-size, resize-frame}
use exc.Time.{of_msec}
use exc.Time.Micros.{micros, of_msec-micros}
use exc.Wheel.Node.{Node, Spoke}
use exc.Wheel.Sizing.{power2bits, nearest_bits, count_bits}
use exc.Wheel.State.{Wheel, ◌>>=◌, nodes_of, make_roots, new}
use exc.Wheel.Contents.{all_nodes}
use exc.Wheel.Counts.{count}
use exc.Wheel.Unique.{HasIds, has_id, count-zero-All}
use exc.Wheel.Inv.{total, Inv, pow_pos}

-- A root that nothing hangs on.
abbrev pub IsFresh : Spoke → Type 0
IsFresh s = (s.nodes ≡ []) × (s.counter ≡ 0) × (s.next_cnt ≡ 0)

All-append {ℓ κ} :
    {A : Type ℓ} (P : A → Type κ) (xs ys : List A) → All P xs → All P ys → All P (xs ++ ys)
All-append P [] ys h k = k
All-append P (x ∷ xs) ys h k = (h.0, All-append P xs ys h.1 k)

abbrev Ready : FreeList → Type 0
Ready f = IsSound f × (is_pure f.mode ≡ false) × (0 < f.inc)

make_roots_lem :
    (n : ℕ) (made : List Spoke) (f : FreeList)
    → Ready f
    → All IsFresh made
    → (spokes : List Spoke) × (f' : FreeList) × (make_roots n made f ≡ some (spokes, f'))
      × All IsFresh spokes
      × (length spokes ≡ length made + n)
      × Ready f'
unfolding make_roots
make_roots_lem zero made f r h = (made, f, refl, h, omega arith, r)
make_roots_lem (suc n) made f r h =
    let (root, taken, sound, _, _, _) = remove_lem f r.0 r.1 r.2 in
    let frame = remove-frame f in
    let s : Spoke = record { root = root; counter = 0; next_cnt = 0; nodes = [] } in
    let (spokes, f', run, fresh, len, ready) =
      make_roots_lem n (made ++ s ∷ []) (FreeList.remove f).1
        (sound, rw frame.0 r.1, rw frame.1 r.2)
        (All-append IsFresh made (s ∷ []) h ((refl, refl, refl), tt)) in
    (spokes, f', rw (taken, ◌>>=◌) run, fresh, omega (arith, length-append made (s ∷ [])), ready)

fresh_nodes : (spokes : List Spoke) (i : ℕ) → All IsFresh spokes → nodes_of spokes i ≡ []
fresh_nodes [] i h = refl
fresh_nodes (s ∷ ss) zero h = h.0.0
fresh_nodes (s ∷ ss) (suc i) h = fresh_nodes ss i h.1

fresh_total : (spokes : List Spoke) → All IsFresh spokes → total spokes ≡ 0
fresh_total [] h = refl
fresh_total (s ∷ ss) h = omega (arith, ap length h.0.0, fresh_total ss h.1)

fresh_count :
    (p : Node → Bool) (spokes : List Spoke) → All IsFresh spokes → count p (all_nodes spokes) ≡ 0
fresh_count p spokes h = count-zero-All p spokes (λ i k. let e = fresh_nodes spokes i h in rw e tt)

-- The loop counts no more bits than a number has.
count_bits_le : (fuel tmp k i : ℕ) → tmp < 2 ^ suc k → count_bits fuel tmp i ≤ i + suc k
unfolding count_bits
count_bits_le zero tmp k i less = omega arith
count_bits_le (suc fuel) tmp zero i less =
    let none_left : (tmp / 2 == 0) ≡ true = ground arith in rw (count_bits, none_left) (omega arith)
count_bits_le (suc fuel) tmp (suc k) i less = elim (Bool-cases (tmp / 2 == 0)) [
  | inl none_left ↦ rw (count_bits, none_left) (omega arith)
  | inr more ↦
      rw (count_bits, more)
        (omega (arith, count_bits_le fuel (tmp / 2) k (i + 1) (omega (arith, pow-suc 2 (suc k)))))
]

nearest_bits_lem :
    (n min_bits max_bits i : ℕ)
    → min_bits ≤ max_bits
    → i ≤ max_bits
    → (min_bits ≤ nearest_bits n min_bits i) × (nearest_bits n min_bits i ≤ max_bits)
unfolding nearest_bits
nearest_bits_lem n min_bits max_bits i le most = ground arith

-- power2bits ends on a number that an int holds, within its limits.
power2bits_lem :
    (n min_bits max_bits : ℕ)
    → n < 2 ^ 31
    → min_bits ≤ suc max_bits
    → (b : ℕ) × (power2bits n min_bits (suc max_bits) ≡ some b)
      × (min_bits ≤ b)
      × (b ≤ suc max_bits)
unfolding power2bits
power2bits_lem n min_bits max_bits small le =
    let positive : leb (2 ^ 31) n ≡ false = ground arith in
    let power = pow_pos (suc max_bits) in
    elim (Bool-cases (ltb (2 ^ suc max_bits - 1) n)) [
      | inl many ↦ rw (positive, many) (suc max_bits, refl, le, omega arith)
      | inr few ↦
          let i = count_bits (n + 1) n 0 in
          let counted = count_bits_le (n + 1) n max_bits 0 (ground (arith, few, power)) in
          let (least, most) =
            nearest_bits_lem n min_bits (suc max_bits) i le (omega (arith, counted)) in
          rw (positive, few) (nearest_bits n min_bits i, refl, least, most)
    ]

-- With a sound free list in pool mode, and a number of spokes and a resolution that an int holds, the
-- constructor ends and meets no null pointer. The wheel is right and empty, with a power of two of
-- fresh spokes, from 8 to 4096, whose ids are unused; `wheel_time_` is the time of one spoke, a power of
-- two of milliseconds, from 2 to 2^20.
pub new-Inv :
    (spokes res prealloc : ℕ) (f : FreeList)
    → IsSound f
    → is_pure f.mode ≡ false
    → 0 < f.inc
    → spokes < 2 ^ 31
    → res < 2 ^ 31
    → (w : Wheel) × (bits : ℕ) × (res_bits : ℕ) × (new spokes res prealloc f ≡ some w)
      × Inv w
      × (w.timer_count ≡ 0)
      × All IsFresh w.spokes
      × (power2bits spokes 3 12 ≡ some bits)
      × (power2bits res 1 20 ≡ some res_bits)
      × ((3 ≤ bits) × (bits ≤ 12))
      × ((1 ≤ res_bits) × (res_bits ≤ 20))
      × (w.spoke_count ≡ 2 ^ bits)
      × (micros w.wheel_time ≡ 1000 * 2 ^ res_bits)
      × HasIds w
unfolding new
new-Inv spokes res prealloc f sound pool inc few fine =
    let (bits, sized_at, three, twelve) = power2bits_lem spokes 3 11 few (omega arith) in
    let (res_bits, resolved, one, twenty) = power2bits_lem res 1 19 fine (omega arith) in
    let frame = resize-frame (prealloc + 2 ^ bits) f in
    let (sized, _) = resize-size (prealloc + 2 ^ bits) f sound pool in
    let (roots, f', run, fresh, len, _) =
      make_roots_lem (2 ^ bits) [] (FreeList.resize (prealloc + 2 ^ bits) f)
        (sized, rw frame.0 pool, rw frame.1 inc) tt in
    let (timed, long) = of_msec-micros (2 ^ res_bits) in
    let w : Wheel = record {
      spokes = roots;
      spoke_count = 2 ^ bits;
      spoke_bits = bits;
      res_bits = res_bits;
      earliest_spoke = 0;
      wheel_time = of_msec (pos (2 ^ res_bits));
      timer_count = 0;
      free_list = f';
    } in
    (
      w,
      bits,
      res_bits,
      rw (sized_at, resolved, run, ◌>>=◌) refl,
      record {
        built = record {
          wide = omega (arith, len);
          inside = pow_pos bits;
          revolution_time = timed;
          revolution = long;
          counted = sym (fresh_total roots fresh);
          countable = omega arith;
          fits = λ i k. rw (fresh_nodes roots i fresh) tt;
          sorted = λ i k. rw (fresh_nodes roots i fresh) tt;
        };
        first = λ h. absurd (omega arith);
      },
      refl,
      fresh,
      sized_at,
      resolved,
      (three, twelve),
      (one, twenty),
      refl,
      long,
      record {
        sized = refl;
        issued = λ id k. absurd (omega (arith, fresh_count (has_id id) roots fresh));
        once = λ id. omega (arith, fresh_count (has_id id) roots fresh);
      },
    )
