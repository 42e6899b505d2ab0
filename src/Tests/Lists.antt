-- ===== src/Tests/Lists.antt =====
-- A SafeList and a SafeDeque of at most two elements.
use exc.Common.{
  ℕ, ◌≡◌, refl, arith, Bool, true, false, if◌then◌else◌, leb, ◌==◌, List, [], ◌∷◌, ◌++◌, length,
  some,
}
use exc.SafeList.Result.{returns, undefined}
use exc.SafeList.{
  SafeList, Result, empty_list, push_back, begin_pop, end_pop, take, clear, enum, pop_front, push,
  erase, ListReachable,
}
use exc.SafeDeque.{SafeDeque, push_all}
use exc.SafeDeque.Bounded.{last_n, push_all_lem}
use exc.SafeList.ListStep.{pushed_back, waited, erased}
use exc.SafeList.ListReachable.{when_new, after_same, after_erase}
use exc.SafeList.Promises.{behind, pop_lem, calls_lem}

abbrev with_seven : SafeList ℕ
with_seven = record { list = 7 ∷ []; max_count = 2; semaphore = 1; popping = 0 }

abbrev with_pop : SafeList ℕ
with_pop = record with_seven { semaphore = 0; popping = 1 }

with_seven-ListReachable : ListReachable false with_seven
unfolding push_back
with_seven-ListReachable = after_same false (when_new 10 2) (pushed_back 7 (empty_list 10 2))

with_pop-ListReachable : ListReachable false with_pop
unfolding begin_pop
with_pop-ListReachable = after_same false with_seven-ListReachable (waited with_seven (omega arith))

abbrev is_seven : ℕ → Bool
is_seven x = x == 7

-- After Erase, a Pop that has got its permit takes `front` of an empty list.
erased_test : end_pop (erase is_seven with_pop) ≡ undefined
unfolding end_pop erase take
erased_test = refl

pop_example :
    (x : ℕ) × (l' : SafeList ℕ) × (end_pop with_pop ≡ returns (x, l'))
    × (with_pop.list ≡ x ∷ l'.list)
pop_example = pop_lem with_pop-ListReachable (omega arith)

-- Seven and eight, of which Erase takes seven.
abbrev no_seven : SafeList ℕ
no_seven = record { list = 8 ∷ []; max_count = 2; semaphore = 2; popping = 0 }

abbrev two_elements : SafeList ℕ
two_elements = record no_seven { list = 7 ∷ 8 ∷ [] }

two_elements-ListReachable : ListReachable false two_elements
unfolding push_back
two_elements-ListReachable = after_same false with_seven-ListReachable (pushed_back 8 with_seven)

no_seven-ListReachable : ListReachable true no_seven
unfolding erase
no_seven-ListReachable = after_erase false two_elements-ListReachable (erased is_seven two_elements)

abbrev quiet : List ℕ → ℕ → SafeList ℕ → Result (SafeList ℕ)
quiet before x l = returns l

calls_example :
    ((l' : SafeList ℕ) × (clear no_seven ≡ returns l') × (l'.list ≡ []))
    × ((l' : SafeList ℕ) × (enum quiet no_seven ≡ returns (no_seven.list, l')) × (l'.list ≡ []))
    × ((l' : SafeList ℕ) × (pop_front no_seven ≡ returns l') × (l'.list ≡ behind no_seven.list))
    × ((l' : SafeList ℕ) × (push 5 no_seven ≡ returns l')
        × (l'.list
            ≡ (if leb no_seven.max_count (length no_seven.list)
                then behind no_seven.list
                else no_seven.list)
              ++ 5 ∷ []))
calls_example = calls_lem 5 quiet no_seven-ListReachable (λ before x l. refl) refl (omega arith)

abbrev two_places : SafeDeque ℕ
two_places = record { queue = 1 ∷ []; queue_size = 2 }

push_all_example :
    push_all (2 ∷ 3 ∷ 4 ∷ []) two_places
    ≡ some (record two_places { queue = last_n 2 (1 ∷ 2 ∷ 3 ∷ 4 ∷ []) })
push_all_example = push_all_lem (2 ∷ 3 ∷ 4 ∷ []) two_places (omega arith) (omega arith)
