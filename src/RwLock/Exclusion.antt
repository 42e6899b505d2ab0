-- ===== src/RwLock/Exclusion.antt =====
-- Readers and a writer exclude each other, and nobody sleeps while the lock is free for good.
use exc.Common.{◌+◌, ◌-◌, ◌≤◌, ◌<◌, ◌≡◌, refl, arith, Bool, true, ltb, ◌⊎◌, inl, inr, Bool-cases}
use exc.RwLock.{
  Lock, read_lock, write_lock, signal, broadcast, un_writelock, un_readlock, unlock, Step,
  Reachable,
}
use exc.RwLock.Step.{
  start_read, start_write, test_read, test_write, wake_read, wake_write, end_read, end_write,
  end_any,
}
use exc.RwLock.Reachable.{at_start, then_step}

-- The counters are those of the threads, a writer is alone, and who sleeps will be woken.
pub record Holds (l : Lock) : Type 0 where
  pub rd : l.rd_cnt ≡ l.readers
  pub wr : l.wr_cnt ≡ l.writers
  pub one_writer : l.writers ≤ 1
  pub alone : (l.writers ≡ 0) ⊎ (l.readers ≡ 0)
  pub readers_wait : (0 < l.writers) ⊎ (l.asleep_readers ≡ 0)
  pub writers_wait : (l.asleep_writers ≡ 0) ⊎ (0 < l.readers + l.writers + l.awake_writers)

-- The same, with the awake thread that tests again already counted out.
record Tests (l : Lock) : Type 0 where
  pub rd : l.rd_cnt ≡ l.readers
  pub wr : l.wr_cnt ≡ l.writers
  pub one_writer : l.writers ≤ 1
  pub alone : (l.writers ≡ 0) ⊎ (l.readers ≡ 0)
  pub readers_wait : (0 < l.writers) ⊎ (l.asleep_readers ≡ 0)

read_lock-Holds : (l : Lock) → Holds l → Holds (read_lock l)
unfolding read_lock
read_lock-Holds l h =
    let a = h.rd in
    let b = h.wr in
    let c = h.one_writer in
    let d = h.alone in
    let e = h.readers_wait in
    let f = h.writers_wait in
    record {
      rd = ground arith;
      wr = ground arith;
      one_writer = ground arith;
      alone = ground arith;
      readers_wait = ground arith;
      writers_wait = ground arith;
    }

write_lock-Holds : (l : Lock) → Tests l → Holds (write_lock l)
unfolding write_lock
write_lock-Holds l h =
    let a = h.rd in
    let b = h.wr in
    let c = h.one_writer in
    let d = h.alone in
    let e = h.readers_wait in
    record {
      rd = ground arith;
      wr = ground arith;
      one_writer = ground arith;
      alone = ground arith;
      readers_wait = ground arith;
      writers_wait = ground arith;
    }

un_writelock-Holds : (l : Lock) → Holds l → 0 < l.writers → Holds (un_writelock l)
unfolding un_writelock broadcast
un_writelock-Holds l h k =
    let a = h.rd in
    let b = h.wr in
    let c = h.one_writer in
    let d = h.alone in
    let e = h.readers_wait in
    let f = h.writers_wait in
    record {
      rd = ground arith;
      wr = ground arith;
      one_writer = ground arith;
      alone = ground arith;
      readers_wait = ground arith;
      writers_wait = ground arith;
    }

un_readlock-Holds : (b : Bool) (l : Lock) → Holds l → 0 < l.readers → Holds (un_readlock b l)
unfolding un_readlock signal
un_readlock-Holds p l h k =
    let a = h.rd in
    let b = h.wr in
    let c = h.one_writer in
    let d = h.alone in
    let e = h.readers_wait in
    let f = h.writers_wait in
    record {
      rd = ground arith;
      wr = ground arith;
      one_writer = ground arith;
      alone = ground arith;
      readers_wait = ground arith;
      writers_wait = ground arith;
    }

unlock-Holds : (b : Bool) (l : Lock) → Holds l → 0 < l.readers + l.writers → Holds (unlock b l)
unfolding unlock
unlock-Holds p l h k =
    let a = h.rd in
    let b = h.wr in
    elim (Bool-cases (ltb 0 l.wr_cnt)) [
      | inl e ↦ rw e (un_writelock-Holds l h (ground arith))
      | inr e ↦
          let r : 0 < l.readers = ground arith in
          let q : ltb 0 l.rd_cnt ≡ true = ground arith in rw (e, q) (un_readlock-Holds p l h r)
    ]

Step-Holds : {l l' : Lock} → Step l l' → Holds l → Holds l'
Step-Holds (start_read l) h = read_lock-Holds l h
Step-Holds (start_write l) h = write_lock-Holds l (record {
  rd = h.rd;
  wr = h.wr;
  one_writer = h.one_writer;
  alone = h.alone;
  readers_wait = h.readers_wait;
})
Step-Holds (test_read l k) h =
    read_lock-Holds (record l { awake_readers = l.awake_readers - 1 })
      (record {
        rd = h.rd;
        wr = h.wr;
        one_writer = h.one_writer;
        alone = h.alone;
        readers_wait = h.readers_wait;
        writers_wait = h.writers_wait;
      })
Step-Holds (test_write l k) h =
    write_lock-Holds (record l { awake_writers = l.awake_writers - 1 })
      (record {
        rd = h.rd;
        wr = h.wr;
        one_writer = h.one_writer;
        alone = h.alone;
        readers_wait = h.readers_wait;
      })
Step-Holds (wake_read l k) h =
    let e = h.readers_wait in
    record {
      rd = h.rd;
      wr = h.wr;
      one_writer = h.one_writer;
      alone = h.alone;
      readers_wait = ground arith;
      writers_wait = h.writers_wait;
    }
Step-Holds (wake_write l k) h = record {
  rd = h.rd;
  wr = h.wr;
  one_writer = h.one_writer;
  alone = h.alone;
  readers_wait = h.readers_wait;
  writers_wait = inr (omega arith);
}
Step-Holds (end_read b l k) h = un_readlock-Holds b l h k
Step-Holds (end_write l k) h = un_writelock-Holds l h k
Step-Holds (end_any b l k) h = unlock-Holds b l h k

Reachable-Holds : {l : Lock} → Reachable l → Holds l
Reachable-Holds at_start = record {
  rd = refl;
  wr = refl;
  one_writer = omega arith;
  alone = inl refl;
  readers_wait = inr refl;
  writers_wait = inl refl;
}
Reachable-Holds (then_step r s) = Step-Holds s (Reachable-Holds r)

-- However the threads interleave, at most one writer has the lock, and then no reader has it.
pub exclusion : (l : Lock) → Reachable l → (l.writers ≤ 1) × ((l.writers ≡ 0) ⊎ (l.readers ≡ 0))
exclusion l r = let h = Reachable-Holds r in (h.one_writer, h.alone)

-- However the threads interleave, no wake-up is lost: where nobody has the lock no reader sleeps,
-- and if a writer sleeps another writer is awake and will test again.
pub no_lost_wakeup :
    (l : Lock)
    → Reachable l
    → l.readers + l.writers ≡ 0
    → (l.asleep_readers ≡ 0) × ((l.asleep_writers ≡ 0) ⊎ (0 < l.awake_writers))
no_lost_wakeup l r e =
    let h = Reachable-Holds r in let f = h.readers_wait in let g = h.writers_wait in ground arith

-- `unlock` does for the thread that has the lock what `UnReadlock` does for a reader and
-- `UnWritelock` for the writer.
pub unlock-each :
    (b : Bool) (l : Lock)
    → Reachable l
    → 0 < l.readers + l.writers
    → ((0 < l.readers) × (unlock b l ≡ un_readlock b l))
      ⊎ ((0 < l.writers) × (unlock b l ≡ un_writelock l))
unfolding unlock
unlock-each p l r k =
    let h = Reachable-Holds r in
    let a = h.rd in
    let b = h.wr in
    elim (Bool-cases (ltb 0 l.wr_cnt)) [
      | inl e ↦ inr (ground arith, rw e)
      | inr e ↦ let q : ltb 0 l.rd_cnt ≡ true = ground arith in inl (ground arith, rw (e, q))
    ]
