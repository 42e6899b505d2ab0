-- ===== src/Tests/Slots.antt =====
-- A queue of one slot that is promised to a BlockPush, and one with an element under a pop.
use exc.Common.{ℕ, ◌+◌, ◌≤◌, ◌<◌, ◌≡◌, refl, arith, ◌⊎◌, true, false, [], ◌∷◌, ◌++◌, some, length}
use exc.SafeQueue.Outcome.{done, stuck}
use exc.SafeQueue.{SafeQueue, empty_queue, push, begin_push, begin_pop, end_pop, QueueReachable}
use exc.SafeQueue.QueueStep.{pushed, wait_empty, wait_full}
use exc.SafeQueue.QueueReachable.{when_new, after}
use exc.SafeQueue.Slots.{slots_lem, push_lem}

abbrev promised : SafeQueue ℕ
promised = record {
  queue = [];
  queue_size = 1;
  empty_semaphore = 0;
  full_semaphore = 0;
  pushing = 1;
  popping = 0;
}

promised-QueueReachable : QueueReachable promised
unfolding begin_push
promised-QueueReachable = after (when_new 100 1) (wait_empty (empty_queue 100 1) (omega arith))

-- Push meets the promised slot and waits with the lock.
push_test : push 7 promised ≡ stuck
unfolding push
push_test = refl

abbrev one_item : SafeQueue ℕ
one_item = record {
  queue = 7 ∷ [];
  queue_size = 2;
  empty_semaphore = 1;
  full_semaphore = 0;
  pushing = 0;
  popping = 1;
}

one_item-QueueReachable : QueueReachable one_item
unfolding push begin_pop
one_item-QueueReachable =
    let q : SafeQueue ℕ = record {
      queue = 7 ∷ [];
      queue_size = 2;
      empty_semaphore = 1;
      full_semaphore = 1;
      pushing = 0;
      popping = 0;
    } in
    after (after (when_new 100 2) (pushed 7 true (empty_queue 100 2) q refl))
      (wait_full q (omega arith))

slots_example :
    (one_item.empty_semaphore + one_item.pushing + length one_item.queue ≡ one_item.queue_size)
    × (length one_item.queue ≤ one_item.queue_size)
    × ((one_item.popping ≡ 0) ⊎ ((x : ℕ) × (q' : SafeQueue ℕ) × (end_pop one_item ≡ some (x, q'))))
slots_example = slots_lem one_item one_item-QueueReachable

push_example :
    ((length promised.queue ≡ promised.queue_size) × (push 7 promised ≡ done (false, promised)))
    ⊎ (((q' : SafeQueue ℕ) × (push 7 promised ≡ done (true, q'))
          × (q'.queue ≡ promised.queue ++ 7 ∷ []))
        ⊎ ((0 < promised.pushing) × (promised.empty_semaphore ≡ 0) × (push 7 promised ≡ stuck)))
push_example = push_lem 7 promised promised-QueueReachable
