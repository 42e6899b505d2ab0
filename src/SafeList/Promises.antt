-- ===== src/SafeList/Promises.antt =====
-- What the count of elements gives to the threads.
use exc.Common.{
  drop_last, ℕ, zero, suc, ◌+◌, ◌-◌, ◌≤◌, ◌<◌, ◌≡◌, refl, sym, ap, ◌∙◌, subst, arith, Bool, true,
  false, if◌then◌else◌, ltb, leb, List, [], ◌∷◌, ◌++◌, length, length-append, append_snoc,
  append_empty, Bool-cases, inl, inr,
}
use exc.SafeList.Result.{returns, waits, undefined}
use exc.SafeList.{
  SafeList, pop_list, pop_front, pop_back, push_back, push_front, push, begin_pop, take, end_pop,
  Result, ◌>>=◌, wait_then, clear_from, clear, without, erase, enum_step, enum_from, enum, append,
  make_room, ListStep, ListReachable,
}
use exc.SafeList.ListStep.{
  pushed_back, pushed_front, pushed, popped_front, popped_back, waited, popped, cleared, enumerated,
  called_nothing, called_both, erased,
}
use exc.SafeList.ListReachable.{when_new, after_same, after_erase}
use exc.SafeList.Counted.{
  Holds, Kept, KeptWith, length-drop_last, length-without, pop_list-Kept, push-Kept,
  clear_from-Kept, enum_from-KeptWith, take-KeptWith,
}

-- Only Erase loses elements.
abbrev Lost : Bool → ℕ → Type 0
Lost true lost = Unit
Lost false lost = lost ≡ 0

module _ {T : Type 0} where
  returned-Kept :
      (lost : ℕ) (r : Result (SafeList T))
      → ((l : SafeList T) → r ≡ returns l → Holds lost l)
      → Kept lost r
  returned-Kept lost (returns l) holds = holds l refl
  returned-Kept lost waits holds = tt
  returned-Kept lost undefined holds = tt

  ListStep-Holds :
      (lost : ℕ) {l l' : SafeList T} → ListStep false l l' → Holds lost l → Holds lost l'
  unfolding push_back push_front pop_front pop_back begin_pop end_pop clear enum
  ListStep-Holds lost (pushed_back value l) h =
      elim (Bool-cases (leb l.max_count (length l.list))) [
        | inl full ↦ rw full h
        | inr less ↦ rw less (record {
          permits = omega (arith, h.permits, length-append l.list (value ∷ []));
          room = let r = length-append l.list (value ∷ []) in ground arith;
        })
      ]
  ListStep-Holds lost (pushed_front value l) h =
      elim (Bool-cases (leb l.max_count (length l.list))) [
        | inl full ↦ rw full h
        | inr less ↦ rw less (record { permits = omega (arith, h.permits); room = ground arith })
      ]
  ListStep-Holds lost (pushed value l l' e) h = subst (Kept lost) e (push-Kept lost value l h)
  ListStep-Holds lost (popped_front l l' e) h =
      subst (Kept lost) e (pop_list-Kept lost (λ x xs. xs) l.list l h refl (λ x ys. refl))
  ListStep-Holds lost (popped_back l l' e) h =
      subst (Kept lost) e
        (pop_list-Kept lost drop_last l.list l h refl (λ x ys. length-drop_last x ys))
  ListStep-Holds lost (waited l p) h = record {
    permits = omega (arith, h.permits, p);
    room = h.room;
  }
  ListStep-Holds lost (popped x l l' p e) h =
      subst (KeptWith lost) e (take-KeptWith lost l.list l refl h p)
  ListStep-Holds lost (cleared l l' e) h =
      subst (Kept lost) e (clear_from-Kept lost l.list l refl h)
  ListStep-Holds lost (called_nothing l) h = h
  ListStep-Holds lost (called_both s t) h = ListStep-Holds lost t (ListStep-Holds lost s h)
  ListStep-Holds lost (enumerated function seen l l' steps e) h = subst (KeptWith lost) e (
      enum_from-KeptWith function lost (length l.list) [] l
        (λ before x k held.
          returned-Kept lost (function before x k)
            (λ m run. ListStep-Holds lost (steps before x k m run) held))
        h)

  ListReachable-Holds :
      {b : Bool} {l : SafeList T} → ListReachable b l → (lost : ℕ) × Holds lost l × Lost b lost
  unfolding erase
  ListReachable-Holds (when_new limit max_size) =
      (0, record { permits = omega arith; room = omega arith }, refl)
  ListReachable-Holds (after_same b r s) =
      let (lost, h, z) = ListReachable-Holds r in (lost, ListStep-Holds lost s h, z)
  ListReachable-Holds (after_erase b r (erased same l)) =
      let (lost, h, z) = ListReachable-Holds r in
      let n = length-without same l.list in
      (
        lost + (length l.list - length (without same l.list)),
        record { permits = omega (arith, h.permits); room = omega (arith, h.room) },
        tt,
      )

  -- As long as Erase has not been called, Pop finds an element behind its wait, the first one.
  pub pop_lem :
      {l : SafeList T}
      → ListReachable false l
      → 0 < l.popping
      → (x : T) × (l' : SafeList T) × (end_pop l ≡ returns (x, l')) × (l.list ≡ x ∷ l'.list)
  unfolding end_pop take
  pop_lem {l} r p =
      let (lost, h, z) = ListReachable-Holds r in found l.list refl (omega (arith, h.permits, z))
    where
      found :
          (xs : List T)
          → l.list ≡ xs
          → 0 < length l.list
          → (x : T) × (l' : SafeList T) × (take xs l ≡ returns (x, l')) × (l.list ≡ x ∷ l'.list)
      found [] e n = absurd (omega (arith, ap length e))
      found (x ∷ xs) e n = (x, record l { list = xs; popping = l.popping - 1 }, refl, e)

  clear_from_lem :
      (xs : List T) (l : SafeList T)
      → l.list ≡ xs
      → length xs ≤ l.semaphore
      → (l' : SafeList T) × (clear_from xs l ≡ returns l') × (l'.list ≡ [])
  unfolding clear_from
  clear_from_lem [] l e n = (l, refl, e)
  clear_from_lem (x ∷ xs) l e n =
      let p : ltb 0 l.semaphore ≡ true = ground arith in
      rw p (
        clear_from_lem xs (record l { list = xs; semaphore = l.semaphore - 1 }) refl
          (omega (arith, n)))

  -- `function` leaves the list as it is.
  abbrev pub LeavesAlone : (List T → T → SafeList T → Result (SafeList T)) → Type 0
  LeavesAlone function =
      (before : List T) (x : T) (l : SafeList T) → function before x l ≡ returns l

  enum_from_lem :
      (function : List T → T → SafeList T → Result (SafeList T)) (n : ℕ) (xs seen : List T)
      (l : SafeList T)
      → LeavesAlone function
      → l.list ≡ xs
      → length xs ≡ n
      → length xs ≤ l.semaphore
      → (l' : SafeList T) × (enum_from function n seen l ≡ returns (seen ++ xs, l'))
        × (l'.list ≡ [])
  unfolding enum_from enum_step wait_then
  enum_from_lem function zero [] seen l quiet e len n =
      (l, ap (λ t. returns (t, l)) (sym (append_empty seen)), e)
  enum_from_lem function zero (x ∷ xs) seen l quiet e len n = absurd (omega (arith, len))
  enum_from_lem function (suc k) [] seen l quiet e len n = absurd (omega (arith, len))
  enum_from_lem function (suc k) (x ∷ xs) seen l quiet e len n =
      let p : ltb 0 l.semaphore ≡ true = ground arith in
      let popped : SafeList T = record l { list = xs; semaphore = l.semaphore - 1 } in
      let (l', run, nil) =
        enum_from_lem function k xs (seen ++ x ∷ []) popped quiet refl (omega (arith, len))
          (omega (arith, n)) in
      (
        l',
        rw (e, p)
            (ap (λ r. r >>= λ called. enum_from function k (seen ++ x ∷ []) called)
                (quiet seen x popped)
              ∙ run
              ∙ ap (λ t. returns (t, l')) (append_snoc seen x xs)),
        nil,
      )

  -- The list without its first element.
  abbrev pub behind : List T → List T
  behind [] = []
  behind (x ∷ xs) = xs

  pop_list_lem :
      (xs : List T) (l : SafeList T)
      → l.list ≡ xs
      → length xs ≤ l.semaphore
      → (l' : SafeList T) × (pop_list (λ y ys. ys) xs l ≡ returns l') × (l'.list ≡ behind xs)
  unfolding pop_list wait_then
  pop_list_lem [] l e n = (l, refl, e)
  pop_list_lem (x ∷ xs) l e n =
      let p : ltb 0 l.semaphore ≡ true = ground arith in
      (record l { list = xs; semaphore = l.semaphore - 1 }, rw p refl, refl)

  make_room_lem :
      (value : T) (xs : List T) (l : SafeList T)
      → 0 < length xs
      → length xs ≤ l.semaphore
      → (l' : SafeList T) × (append value (make_room xs l) ≡ returns l')
        × (l'.list ≡ behind xs ++ value ∷ [])
  unfolding append make_room wait_then
  make_room_lem value [] l z n = absurd (omega (arith, z))
  make_room_lem value (x ∷ xs) l z n =
      let p : ltb 0 l.semaphore ≡ true = ground arith in
      (record l { list = xs ++ value ∷ []; semaphore = l.semaphore - 1 + 1 }, rw p refl, refl)

  push_lem :
      (value : T) (l : SafeList T)
      → 0 < l.max_count
      → length l.list ≤ l.semaphore
      → (l' : SafeList T) × (push value l ≡ returns l')
        × (l'.list
            ≡ (if leb l.max_count (length l.list) then behind l.list else l.list) ++ value ∷ [])
  unfolding push append
  push_lem value l m n = elim (Bool-cases (leb l.max_count (length l.list))) [
    | inl full ↦ rw full (make_room_lem value l.list l (ground arith) n)
    | inr less ↦
        rw less (record l { list = l.list ++ value ∷ []; semaphore = l.semaphore + 1 }, refl, refl)
  ]

  -- While no Pop is between its wait and the lock, four calls come to their end, also after Erase:
  -- Clear and Enum, whose function leaves the list alone, empty the list, Enum having called its
  -- function on all the elements in order; Pop_front takes the first element; and Push, on a list
  -- that may have elements, appends its value and drops the first element only if the list is full.
  pub calls_lem :
      {b : Bool} {l : SafeList T} (value : T)
      (function : List T → T → SafeList T → Result (SafeList T))
      → ListReachable b l
      → LeavesAlone function
      → l.popping ≡ 0
      → 0 < l.max_count
      → ((l' : SafeList T) × (clear l ≡ returns l') × (l'.list ≡ []))
        × ((l' : SafeList T) × (enum function l ≡ returns (l.list, l')) × (l'.list ≡ []))
        × ((l' : SafeList T) × (pop_front l ≡ returns l') × (l'.list ≡ behind l.list))
        × ((l' : SafeList T) × (push value l ≡ returns l')
            × (l'.list
                ≡ (if leb l.max_count (length l.list) then behind l.list else l.list)
                  ++ value ∷ []))
  unfolding clear enum pop_front
  calls_lem {l} value function r quiet idle m =
      let (lost, h, _) = ListReachable-Holds r in
      let n : length l.list ≤ l.semaphore = omega (arith, h.permits, idle) in
      (
        clear_from_lem l.list l refl n,
        enum_from_lem function (length l.list) l.list [] l quiet refl refl n,
        pop_list_lem l.list l refl n,
        push_lem value l m n,
      )
