-- ===== src/SafeList/Counted.antt =====
-- The semaphore counts the elements of the list, until Erase takes some out behind its back.
use exc.Common.{
  drop_last, ℕ, zero, suc, ◌+◌, ◌-◌, ◌≤◌, ◌<◌, ◌≡◌, refl, ap, arith, Bool, ltb, leb, List, [], ◌∷◌,
  ◌++◌, length, length-append, Bool-cases, inl, inr,
}
use exc.SafeList.Result.{returns, waits, undefined}
use exc.SafeList.{
  SafeList, Result, wait_then, pop_list, append, make_room, push, take, clear_from, without, ◌>>=◌,
  enum_step, enum_from,
}

module _ {T : Type 0} where
  -- Permits and permits taken: one for each element, and `lost` for elements that Erase took.
  pub record Holds (lost : ℕ) (l : SafeList T) : Type 0 where
    pub permits : l.semaphore + l.popping ≡ length l.list + lost
    pub room : length l.list ≤ l.max_count

  -- If a call returns, its list holds.
  abbrev pub Kept : ℕ → Result (SafeList T) → Type 0
  Kept lost (returns l) = Holds lost l
  Kept lost waits = Unit
  Kept lost undefined = Unit

  abbrev pub KeptWith : {A : Type 0} → ℕ → Result (A × SafeList T) → Type 0
  KeptWith lost (returns r) = Holds lost r.1
  KeptWith lost waits = Unit
  KeptWith lost undefined = Unit

  pub length-drop_last : (x : T) (xs : List T) → length (drop_last x xs) ≡ length xs
  length-drop_last x [] = refl
  length-drop_last x (y ∷ ys) = omega (arith, length-drop_last y ys)

  pub length-without : (same : T → Bool) (xs : List T) → length (without same xs) ≤ length xs
  length-without same [] = omega arith
  length-without same (x ∷ xs) = ground (arith, length-without same xs)

  pub wait_then-Kept :
      (lost : ℕ) (xs rest : List T) (l : SafeList T)
      → Holds lost l
      → l.list ≡ xs
      → length rest + 1 ≡ length xs
      → Kept lost (wait_then rest l)
  unfolding wait_then
  wait_then-Kept lost xs rest l h e n = elim (Bool-cases (ltb 0 l.semaphore)) [
    | inl p ↦
        let s : 0 < l.semaphore = ground arith in
        rw p (record {
          permits = omega (arith, h.permits, ap length e);
          room = omega (arith, h.room, ap length e);
        })
    | inr p ↦ rw p tt
  ]

  pub pop_list-Kept :
      (lost : ℕ) (rest : T → List T → List T) (xs : List T) (l : SafeList T)
      → Holds lost l
      → l.list ≡ xs
      → ((x : T) (ys : List T) → length (rest x ys) ≡ length ys)
      → Kept lost (pop_list rest xs l)
  unfolding pop_list
  pop_list-Kept lost rest [] l h e n = h
  pop_list-Kept lost rest (x ∷ xs) l h e n =
      wait_then-Kept lost (x ∷ xs) (rest x xs) l h e (omega (arith, n x xs))

  pub push-Kept : (lost : ℕ) (value : T) (l : SafeList T) → Holds lost l → Kept lost (push value l)
  unfolding push make_room append
  push-Kept lost value l h = elim (Bool-cases (leb l.max_count (length l.list))) [
    | inl full ↦ rw full (appended_room l.list refl)
    | inr less ↦ rw less (record {
      permits = omega (arith, h.permits, length-append l.list (value ∷ []));
      room =
          let s : length l.list < l.max_count = ground arith in
          omega (arith, length-append l.list (value ∷ []));
    })
  ]
    where
      appended_room : (xs : List T) → l.list ≡ xs → Kept lost (append value (make_room xs l))
      appended_room [] e = tt
      appended_room (x ∷ xs) e = elim (Bool-cases (ltb 0 l.semaphore)) [
        | inl p ↦
            let s : 0 < l.semaphore = ground arith in
            rw (wait_then, p)
              (record {
                permits = omega (arith, h.permits, ap length e, length-append xs (value ∷ []));
                room = omega (arith, h.room, ap length e, length-append xs (value ∷ []));
              })
        | inr p ↦ rw (wait_then, p) tt
      ]

  pub clear_from-Kept :
      (lost : ℕ) (xs : List T) (l : SafeList T)
      → l.list ≡ xs
      → Holds lost l
      → Kept lost (clear_from xs l)
  unfolding clear_from
  clear_from-Kept lost [] l e h = h
  clear_from-Kept lost (x ∷ xs) l e h = elim (Bool-cases (ltb 0 l.semaphore)) [
    | inl p ↦
        let s : 0 < l.semaphore = ground arith in
        rw p (
          clear_from-Kept lost xs (record l { list = xs; semaphore = l.semaphore - 1 }) refl
            (record {
              permits = omega (arith, h.permits, ap length e);
              room = omega (arith, h.room, ap length e);
            }))
    | inr p ↦ rw p tt
  ]

  -- What `function` leaves, where it is called on lists that hold.
  abbrev pub Keeping : ℕ → (List T → T → SafeList T → Result (SafeList T)) → Type 0
  Keeping lost function =
      (before : List T) (x : T) (l : SafeList T) → Holds lost l → Kept lost (function before x l)

  then-KeptWith :
      {A : Type 0} (lost : ℕ) (r : Result (SafeList T)) (f : SafeList T → Result (A × SafeList T))
      → Kept lost r
      → ((l : SafeList T) → Holds lost l → KeptWith lost (f l))
      → KeptWith lost (r >>= f)
  then-KeptWith lost (returns l) f h next = next l h
  then-KeptWith lost waits f h next = tt
  then-KeptWith lost undefined f h next = tt

  enum_step-KeptWith :
      (again : List T → SafeList T → Result (List T × SafeList T))
      (function : List T → T → SafeList T → Result (SafeList T)) (lost : ℕ) (xs seen : List T)
      (l : SafeList T)
      → Keeping lost function
      → ((seen : List T) (l : SafeList T) → Holds lost l → KeptWith lost (again seen l))
      → l.list ≡ xs
      → Holds lost l
      → KeptWith lost (enum_step again function seen xs l)
  unfolding enum_step
  enum_step-KeptWith again function lost [] seen l keeps next e h = next seen l h
  enum_step-KeptWith again function lost (x ∷ xs) seen l keeps next e h =
      then-KeptWith lost (wait_then xs l)
        (λ popped. function seen x popped >>= λ called. again (seen ++ x ∷ []) called)
        (wait_then-Kept lost (x ∷ xs) xs l h e (omega arith))
        (λ popped held.
          then-KeptWith lost (function seen x popped) (again (seen ++ x ∷ []))
            (keeps seen x popped held) (next (seen ++ x ∷ [])))

  pub enum_from-KeptWith :
      (function : List T → T → SafeList T → Result (SafeList T)) (lost n : ℕ) (seen : List T)
      (l : SafeList T)
      → Keeping lost function
      → Holds lost l
      → KeptWith lost (enum_from function n seen l)
  unfolding enum_from
  enum_from-KeptWith function lost zero seen l keeps h = h
  enum_from-KeptWith function lost (suc n) seen l keeps h =
      enum_step-KeptWith (enum_from function n) function lost l.list seen l keeps
        (λ more k held. enum_from-KeptWith function lost n more k keeps held) refl h

  pub take-KeptWith :
      (lost : ℕ) (xs : List T) (l : SafeList T)
      → l.list ≡ xs
      → Holds lost l
      → 0 < l.popping
      → KeptWith lost (take xs l)
  unfolding take
  take-KeptWith lost [] l e h p = tt
  take-KeptWith lost (x ∷ xs) l e h p = record {
    permits = omega (arith, h.permits, ap length e);
    room = omega (arith, h.room, ap length e);
  }
