-- ===== src/RwLock.antt =====
-- comLib/GMRWLockImp.h and GMRWLockImp.cpp: GMJRRWLock, the lock for many readers or one writer,
-- on a mutex and a condition variable. What is done while `cnt_mutex` is held is one step.
-- The state counts the threads in each phase; `pthread_cond_wait` puts a thread to sleep,
-- `pthread_cond_signal` wakes one sleeper and `pthread_cond_broadcast` all of them, and a sleeper
-- may wake by itself. The module Semaphores has the variant for WIN32.
pub mod Exclusion
pub mod Semaphores
use exc.Common.{ℕ, ◌+◌, ◌-◌, ◌<◌, Bool, true, false, if◌then◌else◌, ltb, ◌==◌}

-- `readers` and `writers` have the lock, those that sleep are in `pthread_cond_wait`, those that
-- are awake have left it and will test again.
pub record Lock : Type 0 where
  pub rd_cnt : ℕ
  pub wr_cnt : ℕ
  pub readers : ℕ
  pub writers : ℕ
  pub asleep_readers : ℕ
  pub asleep_writers : ℕ
  pub awake_readers : ℕ
  pub awake_writers : ℕ

-- GMJRRWLock()
abbrev pub unlocked : Lock
unlocked = record {
  rd_cnt = 0;
  wr_cnt = 0;
  readers = 0;
  writers = 0;
  asleep_readers = 0;
  asleep_writers = 0;
  awake_readers = 0;
  awake_writers = 0;
}

-- One test of the loop of `readLock`: the thread sleeps, or leaves with the lock.
unfoldable pub read_lock : Lock → Lock
read_lock l =
    if ltb 0 l.wr_cnt
    then record l { asleep_readers = l.asleep_readers + 1 }
    else record l { rd_cnt = l.rd_cnt + 1; readers = l.readers + 1 }

unfoldable pub write_lock : Lock → Lock
write_lock l =
    if ltb 0 (l.rd_cnt + l.wr_cnt)
    then record l { asleep_writers = l.asleep_writers + 1 }
    else record l { wr_cnt = l.wr_cnt + 1; writers = l.writers + 1 }

-- A thread that is awake tests again.
abbrev pub read_again : Lock → Lock
read_again l = read_lock (record l { awake_readers = l.awake_readers - 1 })

abbrev pub write_again : Lock → Lock
write_again l = write_lock (record l { awake_writers = l.awake_writers - 1 })

abbrev pub wake_reader : Lock → Lock
wake_reader l = record l {
  asleep_readers = l.asleep_readers - 1;
  awake_readers = l.awake_readers + 1;
}

abbrev pub wake_writer : Lock → Lock
wake_writer l = record l {
  asleep_writers = l.asleep_writers - 1;
  awake_writers = l.awake_writers + 1;
}

-- One sleeper wakes, if there is any: a reader where `reader_first` says so and one sleeps.
unfoldable pub signal : Bool → Lock → Lock
signal reader_first l =
    if ltb 0 l.asleep_readers
    then (if reader_first
        then wake_reader l
        else if ltb 0 l.asleep_writers
        then wake_writer l
        else wake_reader l)
    else if ltb 0 l.asleep_writers
    then wake_writer l
    else l

unfoldable pub broadcast : Lock → Lock
broadcast l = record l {
  asleep_readers = 0;
  asleep_writers = 0;
  awake_readers = l.awake_readers + l.asleep_readers;
  awake_writers = l.awake_writers + l.asleep_writers;
}

unfoldable pub un_writelock : Lock → Lock
unfolding broadcast
un_writelock l = broadcast (record l { wr_cnt = l.wr_cnt - 1; writers = l.writers - 1 })

unfoldable pub un_readlock : Bool → Lock → Lock
unfolding signal
un_readlock reader_first l =
    let l' = record l { rd_cnt = l.rd_cnt - 1; readers = l.readers - 1 } in
    if l.rd_cnt - 1 == 0 then signal reader_first l' else l'

-- `unlock`, for a reader as for a writer.
unfoldable pub unlock : Bool → Lock → Lock
unfolding un_writelock un_readlock
unlock reader_first l =
    if ltb 0 l.wr_cnt
    then un_writelock l
    else if ltb 0 l.rd_cnt
    then un_readlock reader_first l
    else l

-- What the threads may do. A thread gives back what it has.
pub data Step : Lock → Lock → Type 0 where
  start_read : (l : Lock) → Step l (read_lock l)
  start_write : (l : Lock) → Step l (write_lock l)
  test_read : (l : Lock) → 0 < l.awake_readers → Step l (read_again l)
  test_write : (l : Lock) → 0 < l.awake_writers → Step l (write_again l)
  wake_read : (l : Lock) → 0 < l.asleep_readers → Step l (wake_reader l)
  wake_write : (l : Lock) → 0 < l.asleep_writers → Step l (wake_writer l)
  end_read : (reader_first : Bool) (l : Lock) → 0 < l.readers → Step l (un_readlock reader_first l)
  end_write : (l : Lock) → 0 < l.writers → Step l (un_writelock l)
  end_any :
      (reader_first : Bool) (l : Lock) → 0 < l.readers + l.writers → Step l (unlock reader_first l)

pub data Reachable : Lock → Type 0 where
  at_start : Reachable unlocked
  then_step : {l l' : Lock} → Reachable l → Step l l' → Reachable l'
