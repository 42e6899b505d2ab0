-- ===== src/Tests/Locks.antt =====
-- The lock with a writer, a reader that waits for it, and a second writer.
use exc.Common.{◌+◌, ◌≤◌, ◌<◌, ◌≡◌, refl, arith, ◌⊎◌}
use exc.RwLock.{Lock, unlocked, read_lock, write_lock, un_writelock, broadcast, Reachable}
use exc.RwLock.Step.{start_read, start_write, end_write}
use exc.RwLock.Reachable.{at_start, then_step}
use exc.RwLock.Exclusion.{exclusion, no_lost_wakeup}
use exc.RwLock.Semaphores.{SemLock, idle, enter_read, enter_write, SemReachable}
use exc.RwLock.Semaphores.SemStep.{begin_read, begin_write}
use exc.RwLock.Semaphores.SemReachable.{from_idle, and_step}
use exc.RwLock.Semaphores.Fair.{granted_readers, granted_writers, sem_exclusion, sem_no_lost_wakeup}

abbrev crowded : Lock
crowded = write_lock (read_lock (write_lock unlocked))

crowded_test : (crowded.writers ≡ 1) × (crowded.asleep_readers ≡ 1) × (crowded.asleep_writers ≡ 1)
unfolding write_lock read_lock
crowded_test = (refl, refl, refl)

crowded-Reachable : Reachable crowded
crowded-Reachable =
    then_step
      (then_step (then_step at_start (start_write unlocked)) (start_read (write_lock unlocked)))
      (start_write (read_lock (write_lock unlocked)))

left-Reachable : Reachable (un_writelock crowded)
unfolding write_lock read_lock
left-Reachable = then_step crowded-Reachable (end_write crowded (omega arith))

exclusion_example : (crowded.writers ≤ 1) × ((crowded.writers ≡ 0) ⊎ (crowded.readers ≡ 0))
exclusion_example = exclusion crowded crowded-Reachable

no_lost_wakeup_example :
    let l = un_writelock crowded in
    (l.asleep_readers ≡ 0) × ((l.asleep_writers ≡ 0) ⊎ (0 < l.awake_writers))
unfolding un_writelock broadcast write_lock read_lock
no_lost_wakeup_example = no_lost_wakeup (un_writelock crowded) left-Reachable refl

abbrev held : SemLock
held = enter_read (enter_write idle)

held_test : (held.writers ≡ 1) × (held.waiting_readers ≡ 1)
unfolding enter_read enter_write
held_test = (refl, refl)

held-Reachable : SemReachable held
held-Reachable = and_step (and_step from_idle (begin_write idle)) (begin_read (enter_write idle))

sem_exclusion_example :
    (granted_writers held ≤ 1) × ((granted_writers held ≡ 0) ⊎ (granted_readers held ≡ 0))
sem_exclusion_example = sem_exclusion held held-Reachable

sem_no_lost_wakeup_example :
    (held.sem_readers + held.due_readers ≤ held.blocked_readers)
    × (held.sem_writers + held.due_writers ≤ held.blocked_writers)
    × ((0 < granted_readers held + granted_writers held)
        ⊎ (held.blocked_readers + held.blocked_writers ≡ 0))
sem_no_lost_wakeup_example = sem_no_lost_wakeup held held-Reachable
