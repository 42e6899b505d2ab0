-- ===== src/RwLock/Semaphores/Fair.antt =====
-- The lock on semaphores: exclusion, and no thread waits without a reason.
use exc.Common.{
  ℕ, ◌+◌, ◌-◌, ◌≤◌, ◌<◌, ◌≡◌, refl, arith, true, false, ◌⊎◌, inl, inr, Bool-cases, pos, ◌+ℤ◌, ◌-ℤ◌,
  eqb_ℤ, ltb_ℤ, pos_part, neg_part,
}
use exc.RwLock.Semaphores.{
  SemLock, enter_read, enter_write, hand_over, give_back, leave, SemStep, SemReachable,
}
use exc.RwLock.Semaphores.SemStep.{
  begin_read, begin_write, finish_read, finish_write, free_readers, free_writers, pass_read,
  pass_write,
}
use exc.RwLock.Semaphores.SemReachable.{from_idle, and_step}

-- The readers with access, granted access included.
abbrev pub granted_readers : SemLock → ℕ
granted_readers l = l.readers + l.sem_readers + l.due_readers

abbrev pub granted_writers : SemLock → ℕ
granted_writers l = l.writers + l.sem_writers + l.due_writers

-- `extra_r` and `extra_w` are the access that a thread is giving back.
record Counts (extra_r extra_w : ℕ) (l : SemLock) : Type 0 where
  pub pos_active : pos_part l.active ≡ granted_readers l + extra_r
  pub neg_active : neg_part l.active ≡ granted_writers l + extra_w
  pub one_writer : granted_writers l + extra_w ≤ 1
  pub alone : (granted_writers l + extra_w ≡ 0) ⊎ (granted_readers l + extra_r ≡ 0)
  pub blocked_r : l.blocked_readers ≡ l.waiting_readers + l.sem_readers + l.due_readers
  pub blocked_w : l.blocked_writers ≡ l.waiting_writers + l.sem_writers + l.due_writers
  pub busy :
      (l.waiting_readers + l.waiting_writers ≡ 0)
      ⊎ (0 < granted_readers l + extra_r + granted_writers l + extra_w)

enter_read-Counts : (l : SemLock) → Counts 0 0 l → Counts 0 0 (enter_read l)
unfolding enter_read ◌+ℤ◌ ◌-ℤ◌
enter_read-Counts l h =
    let a = h.pos_active in
    let b = h.neg_active in
    let c = h.one_writer in
    let d = h.alone in
    let e = h.blocked_r in
    let f = h.blocked_w in
    let g = h.busy in
    record {
      pos_active = ground arith;
      neg_active = ground arith;
      one_writer = ground arith;
      alone = ground arith;
      blocked_r = ground arith;
      blocked_w = ground arith;
      busy = ground arith;
    }

enter_write-Counts : (l : SemLock) → Counts 0 0 l → Counts 0 0 (enter_write l)
unfolding enter_write
enter_write-Counts l h =
    let a = h.pos_active in
    let b = h.neg_active in
    let c = h.one_writer in
    let d = h.alone in
    let e = h.blocked_r in
    let f = h.blocked_w in
    let g = h.busy in
    record {
      pos_active = ground arith;
      neg_active = ground arith;
      one_writer = ground arith;
      alone = ground arith;
      blocked_r = ground arith;
      blocked_w = ground arith;
      busy = ground arith;
    }

hand_over-Counts :
    (l : SemLock)
    → pos_part l.active ≡ 0
    → neg_part l.active ≡ 0
    → granted_readers l ≡ 0
    → granted_writers l ≡ 0
    → l.blocked_readers ≡ l.waiting_readers + l.sem_readers + l.due_readers
    → l.blocked_writers ≡ l.waiting_writers + l.sem_writers + l.due_writers
    → Counts 0 0 (hand_over l)
unfolding hand_over
hand_over-Counts l a b c d e f = record {
  pos_active = ground arith;
  neg_active = ground arith;
  one_writer = ground arith;
  alone = ground arith;
  blocked_r = ground arith;
  blocked_w = ground arith;
  busy = ground arith;
}

leave_reader-Counts : (l : SemLock) → Counts 1 0 l → Counts 0 0 (leave l)
unfolding leave give_back ◌+ℤ◌ ◌-ℤ◌
leave_reader-Counts l h =
    let a = h.pos_active in
    let b = h.neg_active in
    let c = h.one_writer in
    let d = h.alone in
    let e = h.blocked_r in
    let f = h.blocked_w in
    let g = h.busy in
    let up : ltb_ℤ (pos 0) l.active ≡ true = ground arith in
    elim (Bool-cases (eqb_ℤ (give_back l).active (pos 0))) [
      | inl z ↦
          rw (z, leave)
            (hand_over-Counts (give_back l) (ground arith) (ground arith) (ground arith)
              (ground arith) e f)
      | inr z ↦
          rw (z, leave)
            (record {
              pos_active = ground arith;
              neg_active = ground arith;
              one_writer = ground arith;
              alone = ground arith;
              blocked_r = e;
              blocked_w = f;
              busy = ground arith;
            })
    ]

leave_writer-Counts : (l : SemLock) → Counts 0 1 l → Counts 0 0 (leave l)
unfolding leave give_back ◌+ℤ◌ ◌-ℤ◌
leave_writer-Counts l h =
    let a = h.pos_active in
    let b = h.neg_active in
    let c = h.one_writer in
    let d = h.alone in
    let e = h.blocked_r in
    let f = h.blocked_w in
    let g = h.busy in
    let up : ltb_ℤ (pos 0) l.active ≡ false = ground arith in
    let z : eqb_ℤ (give_back l).active (pos 0) ≡ true = ground arith in
    rw (z, leave)
      (hand_over-Counts (give_back l) (ground arith) (ground arith) (ground arith) (ground arith) e
        f)

semstep-Counts : {l l' : SemLock} → SemStep l l' → Counts 0 0 l → Counts 0 0 l'
semstep-Counts (begin_read l) h = enter_read-Counts l h
semstep-Counts (begin_write l) h = enter_write-Counts l h
semstep-Counts (finish_read l k) h =
    let a = h.pos_active in
    let b = h.neg_active in
    let c = h.one_writer in
    let d = h.alone in
    let g = h.busy in
    leave_reader-Counts (record l { readers = l.readers - 1 })
      (record {
        pos_active = omega arith;
        neg_active = b;
        one_writer = c;
        alone = ground arith;
        blocked_r = h.blocked_r;
        blocked_w = h.blocked_w;
        busy = ground arith;
      })
semstep-Counts (finish_write l k) h =
    let a = h.pos_active in
    let b = h.neg_active in
    let c = h.one_writer in
    let d = h.alone in
    let g = h.busy in
    leave_writer-Counts (record l { writers = l.writers - 1 })
      (record {
        pos_active = a;
        neg_active = omega arith;
        one_writer = omega arith;
        alone = ground arith;
        blocked_r = h.blocked_r;
        blocked_w = h.blocked_w;
        busy = ground arith;
      })
semstep-Counts (free_readers k l p) h =
    let a = h.pos_active in
    let b = h.neg_active in
    let c = h.one_writer in
    let d = h.alone in
    let e = h.blocked_r in
    let f = h.blocked_w in
    let g = h.busy in
    record {
      pos_active = omega arith;
      neg_active = b;
      one_writer = c;
      alone = ground arith;
      blocked_r = omega arith;
      blocked_w = f;
      busy = ground arith;
    }
semstep-Counts (free_writers k l p) h =
    let a = h.pos_active in
    let b = h.neg_active in
    let c = h.one_writer in
    let d = h.alone in
    let e = h.blocked_r in
    let f = h.blocked_w in
    let g = h.busy in
    record {
      pos_active = a;
      neg_active = omega arith;
      one_writer = omega arith;
      alone = ground arith;
      blocked_r = e;
      blocked_w = omega arith;
      busy = ground arith;
    }
semstep-Counts (pass_read l p q) h =
    let a = h.pos_active in
    let b = h.neg_active in
    let c = h.one_writer in
    let d = h.alone in
    let e = h.blocked_r in
    let f = h.blocked_w in
    let g = h.busy in
    record {
      pos_active = omega arith;
      neg_active = b;
      one_writer = c;
      alone = ground arith;
      blocked_r = omega arith;
      blocked_w = f;
      busy = ground arith;
    }
semstep-Counts (pass_write l p q) h =
    let a = h.pos_active in
    let b = h.neg_active in
    let c = h.one_writer in
    let d = h.alone in
    let e = h.blocked_r in
    let f = h.blocked_w in
    let g = h.busy in
    record {
      pos_active = a;
      neg_active = omega arith;
      one_writer = omega arith;
      alone = ground arith;
      blocked_r = e;
      blocked_w = omega arith;
      busy = ground arith;
    }

semreachable-Counts : {l : SemLock} → SemReachable l → Counts 0 0 l
semreachable-Counts from_idle = record {
  pos_active = refl;
  neg_active = refl;
  one_writer = omega arith;
  alone = inl refl;
  blocked_r = refl;
  blocked_w = refl;
  busy = inl refl;
}
semreachable-Counts (and_step r s) = semstep-Counts s (semreachable-Counts r)

-- However the threads interleave, at most one writer has access, and then no reader has it, where
-- access that is granted counts from the critical section on.
pub sem_exclusion :
    (l : SemLock)
    → SemReachable l
    → (granted_writers l ≤ 1) × ((granted_writers l ≡ 0) ⊎ (granted_readers l ≡ 0))
sem_exclusion l r =
    let h = semreachable-Counts r in
    let c = h.one_writer in let d = h.alone in (omega arith, ground arith)

-- However the threads interleave, every permit of a semaphore has a thread that waits for it, and
-- where no thread has access or is granted it no thread waits.
pub sem_no_lost_wakeup :
    (l : SemLock)
    → SemReachable l
    → (l.sem_readers + l.due_readers ≤ l.blocked_readers)
      × (l.sem_writers + l.due_writers ≤ l.blocked_writers)
      × ((0 < granted_readers l + granted_writers l) ⊎ (l.blocked_readers + l.blocked_writers ≡ 0))
sem_no_lost_wakeup l r =
    let h = semreachable-Counts r in
    let e = h.blocked_r in
    let f = h.blocked_w in let g = h.busy in (omega arith, omega arith, ground arith)
