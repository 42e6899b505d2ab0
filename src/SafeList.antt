-- ===== src/SafeList.antt =====
-- comLib/SafeList.h: SafeList, a list on a lock and a semaphore that counts its elements.
-- As in SafeQueue, what is done under `m_Lock` is one step, and a thread that waits for the
-- semaphore with the lock held is stuck. Pop waits for the semaphore first, without the lock.
pub mod Counted
pub mod Promises
use exc.Common.{
  ℕ, zero, suc, ◌+◌, ◌-◌, ◌<◌, ◌≡◌, Bool, true, false, if◌then◌else◌, ltb, leb, List, [], ◌∷◌, ◌++◌,
  Option, none, some, length, last, drop_last,
}

-- The members, the count of `m_EmptySemaphore`, and the threads in Pop that have got a permit and
-- wait for `m_Lock`.
pub record SafeList (T : Type 0) : Type 0 where
  pub list : List T
  pub max_count : ℕ
  pub semaphore : ℕ
  pub popping : ℕ

-- What a call leads to: `waits` is for ever, with the lock held; `undefined` is `front` or
-- `pop_front` of an empty list.
pub data Result (A : Type 0) : Type 0 where
  returns : A → Result A
  waits : Result A
  undefined : Result A

infixl 5 ◌>>=◌
abbrev pub ◌>>=◌ : {A B : Type 0} → Result A → (A → Result B) → Result B
returns a >>= f = f a
waits >>= f = waits
undefined >>= f = undefined

module _ {T : Type 0} where
  -- The constructor, with MAX_LIST_COUNT or SEM_VALUE_MAX as the limit.
  abbrev pub empty_list : ℕ → ℕ → SafeList T
  empty_list limit max_size = record {
    list = [];
    max_count = if ltb limit max_size then limit else max_size;
    semaphore = 0;
    popping = 0;
  }

  unfoldable pub front : SafeList T → Option T
  front l = elim l.list [ [] ↦ none | x ∷ xs ↦ some x ]

  unfoldable pub back : SafeList T → Option T
  back l = elim l.list [ [] ↦ none | x ∷ xs ↦ some (last x xs) ]

  -- Wait under the lock, and what follows with the list left.
  unfoldable pub wait_then : List T → SafeList T → Result (SafeList T)
  wait_then rest l =
      if ltb 0 l.semaphore
      then returns (record l { list = rest; semaphore = l.semaphore - 1 })
      else waits

  unfoldable pub pop_list : (T → List T → List T) → List T → SafeList T → Result (SafeList T)
  unfolding wait_then
  pop_list rest [] l = returns l
  pop_list rest (x ∷ xs) l = wait_then (rest x xs) l

  unfoldable pub pop_front : SafeList T → Result (SafeList T)
  unfolding pop_list
  pop_front l = pop_list (λ x xs. xs) l.list l

  unfoldable pub pop_back : SafeList T → Result (SafeList T)
  unfolding pop_list
  pop_back l = pop_list drop_last l.list l

  unfoldable pub push_back : T → SafeList T → Bool × SafeList T
  push_back value l =
      if leb l.max_count (length l.list)
      then (false, l)
      else (true, record l { list = l.list ++ value ∷ []; semaphore = l.semaphore + 1 })

  unfoldable pub push_front : T → SafeList T → Bool × SafeList T
  push_front value l =
      if leb l.max_count (length l.list)
      then (false, l)
      else (true, record l { list = value ∷ l.list; semaphore = l.semaphore + 1 })

  -- `push_back` and Post at the end of Push.
  unfoldable pub append : T → Result (SafeList T) → Result (SafeList T)
  append value (returns l) =
      returns (record l { list = l.list ++ value ∷ []; semaphore = l.semaphore + 1 })
  append value waits = waits
  append value undefined = undefined

  -- `pop_front` of the list and Wait, where Push finds the list full.
  unfoldable pub make_room : List T → SafeList T → Result (SafeList T)
  unfolding wait_then
  make_room [] l = undefined
  make_room (x ∷ xs) l = wait_then xs l

  unfoldable pub push : T → SafeList T → Result (SafeList T)
  unfolding append make_room
  push value l =
      append value (if leb l.max_count (length l.list) then make_room l.list l else returns l)

  -- Wait(timeout) of Pop, where a permit is there. Where none comes in time, nothing changes.
  unfoldable pub begin_pop : SafeList T → SafeList T
  begin_pop l = record l { semaphore = l.semaphore - 1; popping = l.popping + 1 }

  -- The rest of Pop.
  unfoldable pub take : List T → SafeList T → Result (T × SafeList T)
  take [] l = undefined
  take (x ∷ xs) l = returns (x, record l { list = xs; popping = l.popping - 1 })

  unfoldable pub end_pop : SafeList T → Result (T × SafeList T)
  unfolding take
  end_pop l = take l.list l

  -- The loop of Clear.
  unfoldable pub clear_from : List T → SafeList T → Result (SafeList T)
  clear_from [] l = returns l
  clear_from (x ∷ xs) l =
      let rest = clear_from xs (record l { list = xs; semaphore = l.semaphore - 1 }) in
      if ltb 0 l.semaphore then rest else waits

  unfoldable pub clear : SafeList T → Result (SafeList T)
  unfolding clear_from
  clear l = clear_from l.list l

  abbrev pub without : (T → Bool) → List T → List T
  without same [] = []
  without same (x ∷ xs) = let rest = without same xs in if same x then rest else x ∷ rest

  -- Erase, where `same` is the comparison with the key. The semaphore is left alone.
  unfoldable pub erase : (T → Bool) → SafeList T → SafeList T
  erase same l = record l { list = without same l.list }

  unfoldable pub exist : (T → Bool) → List T → Bool
  exist same [] = false
  exist same (x ∷ xs) = let rest = exist same xs in if same x then true else rest

  -- One index of Enum, with the list as Front finds it: the first element is popped and `function` is
  -- called on it. The lock is recursive, so `function` may itself call the list; it gets what it was
  -- called on before, for a state of its own. `again` is the rest of the loop.
  unfoldable pub enum_step :
      (List T → SafeList T → Result (List T × SafeList T))
      → (List T → T → SafeList T → Result (SafeList T))
      → List T
      → List T
      → SafeList T
      → Result (List T × SafeList T)
  unfolding wait_then
  enum_step again function seen [] l = again seen l
  enum_step again function seen (x ∷ xs) l = wait_then xs l >>= λ popped.
      function seen x popped >>= λ called. again (seen ++ x ∷ []) called

  -- The loop of Enum over `n` indices: `seen` is what `function` was called on.
  unfoldable pub enum_from :
      (List T → T → SafeList T → Result (SafeList T))
      → ℕ
      → List T
      → SafeList T
      → Result (List T × SafeList T)
  unfolding enum_step
  enum_from function zero seen l = returns (seen, l)
  enum_from function (suc n) seen l = enum_step (enum_from function n) function seen l.list l

  -- Enum takes the size of the list once, before its loop.
  unfoldable pub enum :
      (List T → T → SafeList T → Result (SafeList T)) → SafeList T → Result (List T × SafeList T)
  unfolding enum_from
  enum function l = enum_from function (length l.list) [] l

-- The steps of all the threads; the first index is whether the step is Erase. What `function` does to
-- the list in Enum is such steps again, of the calls it makes, none of them Erase.
pub data ListStep {T : Type 0} : Bool → SafeList T → SafeList T → Type 0 where
  pushed_back : (value : T) (l : SafeList T) → ListStep false l (push_back value l).1
  pushed_front : (value : T) (l : SafeList T) → ListStep false l (push_front value l).1
  pushed : (value : T) (l l' : SafeList T) → push value l ≡ returns l' → ListStep false l l'
  popped_front : (l l' : SafeList T) → pop_front l ≡ returns l' → ListStep false l l'
  popped_back : (l l' : SafeList T) → pop_back l ≡ returns l' → ListStep false l l'
  waited : (l : SafeList T) → 0 < l.semaphore → ListStep false l (begin_pop l)
  popped :
      (x : T) (l l' : SafeList T)
      → 0 < l.popping
      → end_pop l ≡ returns (x, l')
      → ListStep false l l'
  cleared : (l l' : SafeList T) → clear l ≡ returns l' → ListStep false l l'
  called_nothing : (l : SafeList T) → ListStep false l l
  called_both : {k l m : SafeList T} → ListStep false k l → ListStep false l m → ListStep false k m
  enumerated :
      (function : List T → T → SafeList T → Result (SafeList T)) (seen : List T) (l l' : SafeList T)
      → ((before : List T) (x : T) (k m : SafeList T)
          → function before x k ≡ returns m
          → ListStep false k m)
      → enum function l ≡ returns (seen, l')
      → ListStep false l l'
  erased : (same : T → Bool) (l : SafeList T) → ListStep true l (erase same l)

-- What threads can come to; the index is whether Erase has been called.
pub data ListReachable {T : Type 0} : Bool → SafeList T → Type 0 where
  when_new : (limit max_size : ℕ) → ListReachable false (empty_list limit max_size)
  after_same :
      {l l' : SafeList T} (b : Bool) → ListReachable b l → ListStep false l l' → ListReachable b l'
  after_erase :
      {l l' : SafeList T} (b : Bool)
      → ListReachable b l
      → ListStep true l l'
      → ListReachable true l'
