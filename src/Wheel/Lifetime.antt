-- ===== src/Wheel/Lifetime.antt =====
-- A timer from `schedule` to `cancel_timer`: its id is its own, and gives it back.
use native.Mathlib.Nat.{mod-lt}
use exc.Common.{
  ℕ, ◌+◌, ◌≤◌, ◌<◌, ◌≡◌, ◌≢◌, sym, ap, subst, ◌∙◌, List, [], ◌∷◌, some, arith, Bool, true, false,
  ◌&&◌, Bool-cases, inl, inr, ◌⊎◌, ◌==◌, neg_part, ℤ,
}
use exc.Time.{TimeValue, add}
use exc.Wheel.Node.{Node}
use exc.Wheel.State.{Wheel, alloc_node, calculate_spoke, nodes_of}
use exc.Wheel.Ops.{schedule, cancel_timer}
use exc.Wheel.Inv.{Inv}
use exc.Wheel.Contents.{all_nodes}
use exc.Wheel.Counts.{one_if, count, count-perm}
use exc.Wheel.Find.{eqb→eq, Lacks}
use exc.Wheel.Unique.{has_id, has_id_self, HasIds, lose, gain, fresh_id, count-zero-All}
use exc.Wheel.Earliest.{All-map}
use exc.Wheel.Remove.{Takes}
use exc.Wheel.Cancel.{Cancels, cancel_timer-Cancels}
use exc.Wheel.Schedule.{CanSchedule, Gains, new_node, schedule-Gains}

calculate_spoke-lt : (w : Wheel) (t : TimeValue) → Inv w → calculate_spoke w t < w.spoke_count
unfolding calculate_spoke
calculate_spoke-lt w t v = mod-lt _ (omega (arith, v.built.inside))

-- On a wheel that is right and whose ids are unique, with a node from the free list, a task, and
-- times and counters in their bounds, `schedule` meets no null pointer and puts in one timer, under
-- an id that no other timer of the wheel has; ids stay unique.
pub schedule-HasIds :
    (now : TimeValue) (task act1 act2 : ℕ) (future_time interval : TimeValue) (w : Wheel) (addr : ℕ)
    → Inv w
    → HasIds w
    → (alloc_node w).0 ≡ some addr
    → 0 < task
    → CanSchedule now future_time interval w
    → let n = new_node addr task act1 act2 (add now future_time) interval w in
      (w' : Wheel) × (schedule now task act1 act2 future_time interval w ≡ some (n.timer_id, w'))
      × Gains w n w'
      × HasIds w'
      × (count (has_id n.timer_id) (all_nodes w.spokes) ≡ 0)
schedule-HasIds now task act1 act2 future_time interval w addr v h e called can =
    let n = new_node addr task act1 act2 (add now future_time) interval w in
    let (w', run, g) =
      schedule-Gains now task act1 act2 future_time interval w addr v e called can in
    let new_id =
      fresh_id w (calculate_spoke w (add now future_time)) h
        (calculate_spoke-lt w (add now future_time) v) in
    (w', run, g, gain w w' n g.grows h new_id g.issued g.content, new_id)

count-and-le : (p q : Node → Bool) (ns : List Node) → count (λ m. q m && p m) ns ≤ count q ns
count-and-le p q [] = omega arith
count-and-le p q (n ∷ ns) = ground (arith, count-and-le p q ns)

-- What one node is among all, if no other has its id.
count-only :
    (p : Node → Bool) (id : ℤ) (n : Node) (ns : List Node)
    → has_id id n ≡ true
    → count (has_id id) ns ≡ 0
    → one_if (has_id id n && p n) + count (λ m. has_id id m && p m) ns ≡ one_if (p n)
count-only p id n ns e z = let le = count-and-le p (has_id id) ns in rw e (omega arith)

module _ (w w' w'' : Wheel) (n m : Node) (g : Gains w n w') (t : Takes w' m w'') (h : HasIds w')
    (same : m.timer_id ≡ n.timer_id)
    (new_id : count (has_id n.timer_id) (all_nodes w.spokes) ≡ 0) where
  -- The timer that goes cannot be told from the one that came, and neither can the others.
  one_timer :
      (p : Node → Bool)
      → (one_if (p m) ≡ one_if (p n))
        × (count p (all_nodes w''.spokes) ≡ count p (all_nodes w.spokes))
  one_timer p =
      let id = n.timer_id in
      let q = λ (k : Node). has_id id k && p k in
      let m_has : has_id id m ≡ true = subst (λ i. has_id i m ≡ true) same (has_id_self m) in
      let out : count (has_id id) (all_nodes w''.spokes) ≡ 0 =
        subst (λ i. count (has_id i) (all_nodes w''.spokes) ≡ 0) same
          (lose w' w'' m t.grows h t.rest).1 in
      let alike : one_if (p m) ≡ one_if (p n) =
        sym (count-only p id m (all_nodes w''.spokes) m_has out)
        ∙ sym (count-perm q t.rest)
        ∙ count-perm q g.content
        ∙ count-only p id n (all_nodes w.spokes) (has_id_self n) new_id in
      (alike, omega (arith, alike, count-perm p t.rest, count-perm p g.content))

  same_number : (f : Node → ℕ) → f m ≡ f n
  same_number f = let e = (one_timer (λ k. f k == f n)).0 in ground arith

one_here : (n : Node) → one_if (has_id n.timer_id n) ≡ 1
one_here n = rw (has_id_self n)

Lacks-none :
    (n : Node) (w : Wheel)
    → Inv w
    → ((i : ℕ) → i < w.spoke_count → Lacks n.timer_id (nodes_of w.spokes i))
    → count (has_id n.timer_id) (all_nodes w.spokes) ≡ 0
Lacks-none n w v lacks = count-zero-All (has_id n.timer_id) w.spokes (λ i k.
    All-map (λ m d. differs m d (Bool-cases (has_id n.timer_id m))) _
      (lacks i (omega (arith, v.built.wide))))
  where
    differs :
        (m : Node)
        → m.timer_id ≢ n.timer_id
        → (has_id n.timer_id m ≡ true) ⊎ (has_id n.timer_id m ≡ false)
        → has_id n.timer_id m ≡ false
    differs m d (inl e) = absurd (d (eqb→eq m.timer_id n.timer_id e))
    differs m d (inr e) = e

-- On a wheel that is right and whose ids are unique, with a node from the free list, a task, and
-- times and counters in their bounds, the id that `schedule` gave cancels that very timer: its arguments come
-- back, the wheel is right, its ids are unique, and it has the timers that it had before.
pub cancel_timer-schedule :
    (now : TimeValue) (task act1 act2 : ℕ) (future_time interval : TimeValue) (w : Wheel) (addr : ℕ)
    → Inv w
    → HasIds w
    → (alloc_node w).0 ≡ some addr
    → 0 < task
    → CanSchedule now future_time interval w
    → (id : ℤ) × (w' : Wheel) × (w'' : Wheel) × (schedule now task act1 act2 future_time interval w
        ≡ some (id, w'))
      × (cancel_timer id w' ≡ some (some (act1, act2), w''))
      × Inv w''
      × HasIds w''
      × ((p : Node → Bool) → count p (all_nodes w''.spokes) ≡ count p (all_nodes w.spokes))
cancel_timer-schedule now task act1 act2 future_time interval w addr v h e called can =
    let n = new_node addr task act1 act2 (add now future_time) interval w in
    let (w', run, g, h', new_id) =
      schedule-HasIds now task act1 act2 future_time interval w addr v h e called can in
    cancelled n w' run g h' new_id
      (cancel_timer-Cancels n.timer_id w' g.inv (λ d. let q = ap neg_part d in omega arith))
  where
    cancelled :
        (n : Node) (w' : Wheel)
        → schedule now task act1 act2 future_time interval w ≡ some (n.timer_id, w')
        → Gains w n w'
        → HasIds w'
        → count (has_id n.timer_id) (all_nodes w.spokes) ≡ 0
        → Cancels n.timer_id w' (cancel_timer n.timer_id w')
        → (id : ℤ) × (w₁ : Wheel) × (w₂ : Wheel) × (schedule now task act1 act2 future_time interval
              w
            ≡ some (id, w₁))
          × (cancel_timer id w₁ ≡ some (some (n.act1, n.act2), w₂))
          × Inv w₂
          × HasIds w₂
          × ((p : Node → Bool) → count p (all_nodes w₂.spokes) ≡ count p (all_nodes w.spokes))
    cancelled n w' run g h' new_id (inl (_, lacks)) = absurd (
        omega (
          arith,
          Lacks-none n w' g.inv lacks,
          count-perm (has_id n.timer_id) g.content,
          one_here n,
        ))
    cancelled n w' run g h' new_id (inr (m, w'', same, cancel, t)) = (
      n.timer_id,
      w',
      w'',
      run,
      cancel
          ∙ ap (λ (a : ℕ). some (some (a, m.act2), w''))
              (same_number w w' w'' n m g t h' same new_id (λ k. k.act1))
          ∙ ap (λ (a : ℕ). some (some (n.act1, a), w''))
              (same_number w w' w'' n m g t h' same new_id (λ k. k.act2)),
      t.inv,
      (lose w' w'' m t.grows h' t.rest).0,
      λ p. (one_timer w w' w'' n m g t h' same new_id p).1,
    )
