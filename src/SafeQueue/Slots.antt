-- ===== src/SafeQueue/Slots.antt =====
-- Every slot of the queue is free, promised to a push, or taken, whatever the threads do.
use exc.Common.{
  ◌+◌, ◌-◌, ◌≤◌, ◌<◌, ◌≡◌, refl, ap, subst, arith, Bool, true, false, ltb, leb, List, [], ◌∷◌, ◌++◌,
  Option, none, some, length, length-append, Bool-cases, inl, inr, ◌⊎◌,
}
use exc.SafeQueue.Outcome.{done, stuck}
use exc.SafeQueue.{
  SafeQueue, Outcome, push, begin_push, end_push, begin_pop, take_front, end_pop, clear_from, clear,
  QueueStep, QueueReachable,
}
use exc.SafeQueue.QueueStep.{pushed, wait_empty, block_pushed, wait_full, popped, cleared}
use exc.SafeQueue.QueueReachable.{when_new, after}

module _ {T : Type 0} where
  pub record IsFair (q : SafeQueue T) : Type 0 where
    pub slots : q.empty_semaphore + q.pushing + length q.queue ≡ q.queue_size
    pub items : q.full_semaphore + q.popping ≡ length q.queue

  -- The outcome of a call under the lock, if it comes to an end.
  abbrev Ends : Outcome (SafeQueue T) → Type 0
  Ends (done q) = IsFair q
  Ends stuck = Unit {0}

  abbrev PushEnds : Outcome (Bool × SafeQueue T) → Type 0
  PushEnds (done r) = IsFair r.1
  PushEnds stuck = Unit {0}

  abbrev PopEnds : Option (T × SafeQueue T) → Type 0
  PopEnds none = Unit {0}
  PopEnds (some r) = IsFair r.1

  push-PushEnds : (value : T) (q : SafeQueue T) → IsFair q → PushEnds (push value q)
  unfolding push
  push-PushEnds value q h = elim (Bool-cases (leb q.queue_size (length q.queue))) [
    | inl e ↦ rw e h
    | inr e ↦ elim (Bool-cases (ltb 0 q.empty_semaphore)) [
      | inl d ↦
          rw (e, d)
            (record {
              slots =
                  let s = h.slots in
                  let n : 0 < q.empty_semaphore = ground arith in
                  omega (arith, length-append q.queue (value ∷ []));
              items = let s = h.items in omega (arith, length-append q.queue (value ∷ []));
            })
      | inr d ↦ rw (e, d) tt
    ]
  ]

  take_front-PopEnds :
      (xs : List T) (q : SafeQueue T)
      → q.queue ≡ xs
      → IsFair q
      → 0 < q.popping
      → PopEnds (take_front xs q)
  unfolding take_front
  take_front-PopEnds [] q e h k = tt
  take_front-PopEnds (x ∷ xs) q e h k = record {
    slots = omega (arith, h.slots, ap length e);
    items = omega (arith, h.items, ap length e);
  }

  end_pop-PopEnds : (q : SafeQueue T) → IsFair q → 0 < q.popping → PopEnds (end_pop q)
  unfolding end_pop
  end_pop-PopEnds q h k = take_front-PopEnds q.queue q refl h k

  clear_from-Ends :
      (xs : List T) (q : SafeQueue T) → q.queue ≡ xs → IsFair q → Ends (clear_from xs q)
  unfolding clear_from
  clear_from-Ends [] q e h = h
  clear_from-Ends (x ∷ xs) q e h = elim (Bool-cases (ltb 0 q.full_semaphore)) [
    | inl d ↦
        let n : 0 < q.full_semaphore = ground arith in
        rw d (
          clear_from-Ends xs
            (record q {
              queue = xs;
              full_semaphore = q.full_semaphore - 1;
              empty_semaphore = q.empty_semaphore + 1;
            })
            refl
            (record {
              slots = omega (arith, h.slots, ap length e);
              items = omega (arith, h.items, ap length e);
            }))
    | inr d ↦ rw d tt
  ]

  QueueStep-IsFair : {q q' : SafeQueue T} → QueueStep q q' → IsFair q → IsFair q'
  unfolding begin_push end_push begin_pop clear
  QueueStep-IsFair (pushed value b q q' e) h = subst PushEnds e (push-PushEnds value q h)
  QueueStep-IsFair (wait_empty q k) h = record { slots = omega (arith, h.slots); items = h.items }
  QueueStep-IsFair (block_pushed value q k) h = record {
    slots = omega (arith, h.slots, length-append q.queue (value ∷ []));
    items = omega (arith, h.items, length-append q.queue (value ∷ []));
  }
  QueueStep-IsFair (wait_full q k) h = record { slots = h.slots; items = omega (arith, h.items) }
  QueueStep-IsFair (popped x q q' k e) h = subst PopEnds e (end_pop-PopEnds q h k)
  QueueStep-IsFair (cleared q q' e) h = subst Ends e (clear_from-Ends q.queue q refl h)

  QueueReachable-IsFair : {q : SafeQueue T} → QueueReachable q → IsFair q
  QueueReachable-IsFair (when_new limit queue_size) = record { slots = omega arith; items = refl }
  QueueReachable-IsFair (after r s) = QueueStep-IsFair s (QueueReachable-IsFair r)

  -- However the threads interleave, the free slots, those promised to a BlockPush and the elements
  -- make up the size of the queue, which is never exceeded; and a thread that has a permit to pop
  -- finds an element.
  pub slots_lem :
      (q : SafeQueue T)
      → QueueReachable q
      → (q.empty_semaphore + q.pushing + length q.queue ≡ q.queue_size)
        × (length q.queue ≤ q.queue_size)
        × ((q.popping ≡ 0) ⊎ ((x : T) × (q' : SafeQueue T) × (end_pop q ≡ some (x, q'))))
  unfolding end_pop take_front
  slots_lem q r =
      let h = QueueReachable-IsFair r in
      (h.slots, omega (arith, h.slots), front q.queue refl h.items)
    where
      front :
          (xs : List T)
          → q.queue ≡ xs
          → q.full_semaphore + q.popping ≡ length q.queue
          → (q.popping ≡ 0) ⊎ ((x : T) × (q' : SafeQueue T) × (take_front xs q ≡ some (x, q')))
      front [] e i = inl (omega (arith, ap length e))
      front (y ∷ ys) e i = inr (
        y,
        record q { queue = ys; empty_semaphore = q.empty_semaphore + 1; popping = q.popping - 1 },
        refl,
      )

  -- Push has three outcomes. It answers false where the queue is full. Where there is room and a
  -- free slot it appends the value. Where there is room but every free slot is promised to a
  -- BlockPush, it waits with the lock held, which those need to go on.
  pub push_lem :
      (value : T) (q : SafeQueue T)
      → QueueReachable q
      → ((length q.queue ≡ q.queue_size) × (push value q ≡ done (false, q)))
        ⊎ (((q' : SafeQueue T) × (push value q ≡ done (true, q'))
              × (q'.queue ≡ q.queue ++ value ∷ []))
            ⊎ ((0 < q.pushing) × (q.empty_semaphore ≡ 0) × (push value q ≡ stuck)))
  unfolding push
  push_lem value q r =
      let h = QueueReachable-IsFair r in
      let s = h.slots in
      elim (Bool-cases (leb q.queue_size (length q.queue))) [
        | inl e ↦
            let n : q.queue_size ≤ length q.queue = ground arith in inl (omega arith, rw e refl)
        | inr e ↦ elim (Bool-cases (ltb 0 q.empty_semaphore)) [
          | inl d ↦ inr (
              inl (
                record q {
                  queue = q.queue ++ value ∷ [];
                  empty_semaphore = q.empty_semaphore - 1;
                  full_semaphore = q.full_semaphore + 1;
                },
                rw (e, d) refl,
                refl,
              ))
          | inr d ↦
              let n : length q.queue < q.queue_size = ground arith in
              let z : q.empty_semaphore ≡ 0 = ground arith in
              inr (inr (omega arith, z, rw (e, d) refl))
        ]
      ]

  clear_from-stuck :
      (xs : List T) (q : SafeQueue T) → q.full_semaphore < length xs → clear_from xs q ≡ stuck
  unfolding clear_from
  clear_from-stuck [] q h = absurd (omega arith)
  clear_from-stuck (x ∷ xs) q h = elim (Bool-cases (ltb 0 q.full_semaphore)) [
    | inl d ↦
        let n : 0 < q.full_semaphore = ground arith in
        rw d (
          clear_from-stuck xs
            (record q {
              queue = xs;
              full_semaphore = q.full_semaphore - 1;
              empty_semaphore = q.empty_semaphore + 1;
            })
            (omega arith))
    | inr d ↦ rw d refl
  ]

  clear_from-done :
      (xs : List T) (q : SafeQueue T)
      → q.queue ≡ xs
      → q.full_semaphore ≡ length xs
      → (q' : SafeQueue T) × (clear_from xs q ≡ done q') × (q'.queue ≡ [])
  unfolding clear_from
  clear_from-done [] q e h = (q, refl, e)
  clear_from-done (x ∷ xs) q e h =
      let d : ltb 0 q.full_semaphore ≡ true = ground arith in
      rw d (
        clear_from-done xs
          (record q {
            queue = xs;
            full_semaphore = q.full_semaphore - 1;
            empty_semaphore = q.empty_semaphore + 1;
          })
          refl (omega arith))

  -- Clear empties the queue and frees its slots where no pop is under way. Where a thread has a
  -- permit to pop, Clear waits for that permit with the lock held, which the thread needs to go on.
  pub clear_lem :
      (q : SafeQueue T)
      → QueueReachable q
      → ((0 < q.popping) × (clear q ≡ stuck))
        ⊎ ((q.popping ≡ 0)
            × (q' : SafeQueue T) × (clear q ≡ done q')
            × (q'.queue ≡ [])
            × (q'.empty_semaphore + q'.pushing ≡ q'.queue_size))
  unfolding clear
  clear_lem q r =
      let h = QueueReachable-IsFair r in
      let i = h.items in
      elim (Bool-cases (ltb 0 q.popping)) [
        | inl d ↦
            let n : 0 < q.popping = ground arith in
            inl (n, clear_from-stuck q.queue q (omega arith))
        | inr d ↦
            let z : q.popping ≡ 0 = ground arith in
            let (q', run, nil) = clear_from-done q.queue q refl (omega arith) in
            let f : IsFair q' = subst Ends run (clear_from-Ends q.queue q refl h) in
            inr (z, q', run, nil, omega (arith, f.slots, ap length nil))
      ]
