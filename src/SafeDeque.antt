-- ===== src/SafeDeque.antt =====
-- comLib/SafeDeque.h: SafeDeque, a deque of bounded size on a lock. Each operation holds the lock,
-- so it is one step. none is `pop_front` or `front` of an empty deque, which is undefined.
pub mod Bounded
use exc.Common.{
  ℕ, Bool, true, false, if◌then◌else◌, ltb, leb, List, [], ◌∷◌, ◌++◌, Option, none, some, length,
  last, drop_last,
}

pub record SafeDeque (T : Type 0) : Type 0 where
  pub queue : List T
  pub queue_size : ℕ

module _ {T : Type 0} where
  -- The constructor, with MAX_QUEUE_SIZE as the limit.
  abbrev pub new : ℕ → ℕ → SafeDeque T
  new limit queue_size = record {
    queue = [];
    queue_size = if ltb limit queue_size then limit else queue_size;
  }

  -- Pop_Front and Pop_Back: the value, or false.
  unfoldable pub pop_front : SafeDeque T → Option T × SafeDeque T
  pop_front d = elim d.queue [ [] ↦ (none, d) | x ∷ xs ↦ (some x, record d { queue = xs }) ]

  unfoldable pub pop_back : SafeDeque T → Option T × SafeDeque T
  pop_back d = elim d.queue [
    | [] ↦ (none, d)
    | x ∷ xs ↦ (some (last x xs), record d { queue = drop_last x xs })
  ]

  -- What a full deque has behind its first element, and `value`.
  unfoldable pub append_behind : T → List T → SafeDeque T → Option (SafeDeque T)
  append_behind value [] d = none
  append_behind value (x ∷ xs) d = some (record d { queue = xs ++ value ∷ [] })

  unfoldable pub push_back : T → SafeDeque T → Option (SafeDeque T)
  unfolding append_behind
  push_back value d =
      if leb d.queue_size (length d.queue)
      then append_behind value d.queue d
      else some (record d { queue = d.queue ++ value ∷ [] })

  unfoldable pub prepend_before : T → List T → SafeDeque T → Option (SafeDeque T)
  prepend_before value [] d = none
  prepend_before value (x ∷ xs) d = some (record d { queue = value ∷ drop_last x xs })

  unfoldable pub push_front : T → SafeDeque T → Option (SafeDeque T)
  unfolding prepend_before
  push_front value d =
      if leb d.queue_size (length d.queue)
      then prepend_before value d.queue d
      else some (record d { queue = value ∷ d.queue })

  unfoldable pub clear : SafeDeque T → SafeDeque T
  clear d = record d { queue = [] }

  -- Front and Back
  unfoldable pub front : SafeDeque T → Option T
  front d = elim d.queue [ [] ↦ none | x ∷ xs ↦ some x ]

  unfoldable pub back : SafeDeque T → Option T
  back d = elim d.queue [ [] ↦ none | x ∷ xs ↦ some (last x xs) ]

  -- Push_Back of one value after another.
  unfoldable pub push_all : List T → SafeDeque T → Option (SafeDeque T)
  unfolding push_back
  push_all [] d = some d
  push_all (x ∷ xs) d = elim (push_back x d) [ none ↦ none | some e ↦ push_all xs e ]
