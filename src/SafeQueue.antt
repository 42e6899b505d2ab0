-- ===== src/SafeQueue.antt =====
-- comLib/SafeQueue.h: SafeQueue, a bounded queue on a lock and two semaphores.
-- A wait on a semaphore that is not under `m_Lock` is one step, and what is done under `m_Lock`
-- another. A call that waits on a semaphore while it has `m_Lock` is a step only where the
-- semaphore has a permit: else the thread stays there, and with it all that need the lock.
pub mod Slots
use exc.Common.{
  ℕ, ◌+◌, ◌-◌, ◌<◌, ◌≡◌, Bool, true, false, if◌then◌else◌, ltb, leb, List, [], ◌∷◌, ◌++◌, Option,
  none, some, length,
}

-- The members, the count of each semaphore, and the threads that have got a permit and wait for
-- `m_Lock`: `pushing` inside BlockPush, `popping` inside BlockPop or Pop.
pub record SafeQueue (T : Type 0) : Type 0 where
  pub queue : List T
  pub queue_size : ℕ
  pub empty_semaphore : ℕ
  pub full_semaphore : ℕ
  pub pushing : ℕ
  pub popping : ℕ

-- What a call under the lock leads to: `stuck` waits for a permit with the lock held.
pub data Outcome (A : Type 0) : Type 0 where
  done : A → Outcome A
  stuck : Outcome A

module _ {T : Type 0} where
  -- The constructor, with `sem_value_max` or MAX_QUEUE_SIZE as the limit.
  abbrev pub empty_queue : ℕ → ℕ → SafeQueue T
  empty_queue limit queue_size =
      let size = if ltb limit queue_size then limit else queue_size in
      record {
        queue = [];
        queue_size = size;
        empty_semaphore = size;
        full_semaphore = 0;
        pushing = 0;
        popping = 0;
      }

  unfoldable pub push : T → SafeQueue T → Outcome (Bool × SafeQueue T)
  push value q =
      if leb q.queue_size (length q.queue)
      then done (false, q)
      else if ltb 0 q.empty_semaphore
      then done (
        true,
        record q {
          queue = q.queue ++ value ∷ [];
          empty_semaphore = q.empty_semaphore - 1;
          full_semaphore = q.full_semaphore + 1;
        },
      )
      else stuck

  -- The first line of BlockPush, where a permit is there.
  unfoldable pub begin_push : SafeQueue T → SafeQueue T
  begin_push q = record q { empty_semaphore = q.empty_semaphore - 1; pushing = q.pushing + 1 }

  -- The rest of BlockPush.
  unfoldable pub end_push : T → SafeQueue T → SafeQueue T
  end_push value q = record q {
    queue = q.queue ++ value ∷ [];
    full_semaphore = q.full_semaphore + 1;
    pushing = q.pushing - 1;
  }

  -- The first line of BlockPop and of Pop, where a permit is there.
  unfoldable pub begin_pop : SafeQueue T → SafeQueue T
  begin_pop q = record q { full_semaphore = q.full_semaphore - 1; popping = q.popping + 1 }

  -- `front` and `pop`; none is `front` of an empty queue, which is undefined.
  unfoldable pub take_front : List T → SafeQueue T → Option (T × SafeQueue T)
  take_front [] q = none
  take_front (x ∷ xs) q =
      some (
        x,
        record q { queue = xs; empty_semaphore = q.empty_semaphore + 1; popping = q.popping - 1 },
      )

  -- The rest of them.
  unfoldable pub end_pop : SafeQueue T → Option (T × SafeQueue T)
  unfolding take_front
  end_pop q = take_front q.queue q

  -- The loop of Clear over the elements.
  unfoldable pub clear_from : List T → SafeQueue T → Outcome (SafeQueue T)
  clear_from [] q = done q
  clear_from (x ∷ xs) q =
      let rest = clear_from xs (record q {
        queue = xs;
        full_semaphore = q.full_semaphore - 1;
        empty_semaphore = q.empty_semaphore + 1;
      }) in
      if ltb 0 q.full_semaphore then rest else stuck

  unfoldable pub clear : SafeQueue T → Outcome (SafeQueue T)
  unfolding clear_from
  clear q = clear_from q.queue q

-- The steps of all the threads.
pub data QueueStep {T : Type 0} : SafeQueue T → SafeQueue T → Type 0 where
  pushed :
      (value : T) (b : Bool) (q q' : SafeQueue T) → push value q ≡ done (b, q') → QueueStep q q'
  wait_empty : (q : SafeQueue T) → 0 < q.empty_semaphore → QueueStep q (begin_push q)
  block_pushed : (value : T) (q : SafeQueue T) → 0 < q.pushing → QueueStep q (end_push value q)
  wait_full : (q : SafeQueue T) → 0 < q.full_semaphore → QueueStep q (begin_pop q)
  popped : (x : T) (q q' : SafeQueue T) → 0 < q.popping → end_pop q ≡ some (x, q') → QueueStep q q'
  cleared : (q q' : SafeQueue T) → clear q ≡ done q' → QueueStep q q'

pub data QueueReachable {T : Type 0} : SafeQueue T → Type 0 where
  when_new : (limit queue_size : ℕ) → QueueReachable (empty_queue limit queue_size)
  after : {q q' : SafeQueue T} → QueueReachable q → QueueStep q q' → QueueReachable q'
