-- ===== src/RwLock/Semaphores.antt =====
-- comLib/GMRWLockImp.cpp: GMJRRWLock for WIN32, on a critical section and two semaphores. What is
-- done in the critical section is one step; the release of a semaphore after it is another, and
-- so is the wait of a thread that was told to wait.
pub mod Fair
use exc.Common.{
  ℕ, ◌+◌, ◌-◌, ◌≤◌, ◌<◌, Bool, true, false, not, ◌||◌, if◌then◌else◌, ltb, ℤ, pos, negsuc, ◌+ℤ◌,
  ◌-ℤ◌, eqb_ℤ, ltb_ℤ,
}

-- The members of the class, the counts of the semaphores, what threads are about to release, and
-- the threads: those that have access, and those that wait or are about to.
pub record SemLock : Type 0 where
  pub waiting_readers : ℕ
  pub waiting_writers : ℕ
  pub active : ℤ
  pub sem_readers : ℕ
  pub sem_writers : ℕ
  pub due_readers : ℕ
  pub due_writers : ℕ
  pub readers : ℕ
  pub writers : ℕ
  pub blocked_readers : ℕ
  pub blocked_writers : ℕ

abbrev pub idle : SemLock
idle = record {
  waiting_readers = 0;
  waiting_writers = 0;
  active = pos 0;
  sem_readers = 0;
  sem_writers = 0;
  due_readers = 0;
  due_writers = 0;
  readers = 0;
  writers = 0;
  blocked_readers = 0;
  blocked_writers = 0;
}

unfoldable pub enter_read : SemLock → SemLock
enter_read l =
    if ltb 0 l.waiting_writers || ltb_ℤ l.active (pos 0)
    then record l {
      waiting_readers = l.waiting_readers + 1;
      blocked_readers = l.blocked_readers + 1;
    }
    else record l { active = l.active +ℤ pos 1; readers = l.readers + 1 }

unfoldable pub enter_write : SemLock → SemLock
enter_write l =
    if not (eqb_ℤ l.active (pos 0))
    then record l {
      waiting_writers = l.waiting_writers + 1;
      blocked_writers = l.blocked_writers + 1;
    }
    else record l { active = negsuc 0; writers = l.writers + 1 }

-- Who gets access when no thread has it: a writer first, then all the readers.
unfoldable pub hand_over : SemLock → SemLock
hand_over l =
    if ltb 0 l.waiting_writers
    then record l {
      active = negsuc 0;
      waiting_writers = l.waiting_writers - 1;
      due_writers = l.due_writers + 1;
    }
    else if ltb 0 l.waiting_readers
    then record l {
      active = pos l.waiting_readers;
      waiting_readers = 0;
      due_readers = l.due_readers + l.waiting_readers;
    }
    else l

-- The first test of `unlock`.
unfoldable pub give_back : SemLock → SemLock
give_back l = record l {
  active = if ltb_ℤ (pos 0) l.active then l.active -ℤ pos 1 else l.active +ℤ pos 1;
}

unfoldable pub leave : SemLock → SemLock
unfolding give_back hand_over
leave l = if eqb_ℤ (give_back l).active (pos 0) then hand_over (give_back l) else give_back l

-- ReleaseSemaphore, for `k` of the threads that are due.
abbrev pub release_readers : ℕ → SemLock → SemLock
release_readers k l = record l { due_readers = l.due_readers - k; sem_readers = l.sem_readers + k }

abbrev pub release_writers : ℕ → SemLock → SemLock
release_writers k l = record l { due_writers = l.due_writers - k; sem_writers = l.sem_writers + k }

-- WaitForSingleObject returns.
abbrev pub pass_reader : SemLock → SemLock
pass_reader l = record l {
  sem_readers = l.sem_readers - 1;
  blocked_readers = l.blocked_readers - 1;
  readers = l.readers + 1;
}

abbrev pub pass_writer : SemLock → SemLock
pass_writer l = record l {
  sem_writers = l.sem_writers - 1;
  blocked_writers = l.blocked_writers - 1;
  writers = l.writers + 1;
}

pub data SemStep : SemLock → SemLock → Type 0 where
  begin_read : (l : SemLock) → SemStep l (enter_read l)
  begin_write : (l : SemLock) → SemStep l (enter_write l)
  finish_read :
      (l : SemLock) → 0 < l.readers → SemStep l (leave (record l { readers = l.readers - 1 }))
  finish_write :
      (l : SemLock) → 0 < l.writers → SemStep l (leave (record l { writers = l.writers - 1 }))
  free_readers : (k : ℕ) (l : SemLock) → k ≤ l.due_readers → SemStep l (release_readers k l)
  free_writers : (k : ℕ) (l : SemLock) → k ≤ l.due_writers → SemStep l (release_writers k l)
  pass_read : (l : SemLock) → 0 < l.sem_readers → 0 < l.blocked_readers → SemStep l (pass_reader l)
  pass_write : (l : SemLock) → 0 < l.sem_writers → 0 < l.blocked_writers → SemStep l (pass_writer l)

pub data SemReachable : SemLock → Type 0 where
  from_idle : SemReachable idle
  and_step : {l l' : SemLock} → SemReachable l → SemStep l l' → SemReachable l'
