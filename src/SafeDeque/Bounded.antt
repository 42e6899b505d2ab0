-- ===== src/SafeDeque/Bounded.antt =====
-- A SafeDeque is a window on what was pushed.
use exc.Common.{
  ℕ, ◌≤◌, ◌<◌, ◌≡◌, refl, sym, ap, ◌∙◌, arith, true, false, if◌then◌else◌, leb, List, [], ◌∷◌, ◌++◌,
  some, length, length-append, append_snoc, append_empty, Bool-cases, inl, inr,
}
use exc.SafeDeque.{SafeDeque, append_behind, push_back, push_all}

module _ {T : Type 0} where
  -- The last `n` elements, or all where there are fewer.
  abbrev pub last_n : ℕ → List T → List T
  last_n n [] = []
  last_n n (x ∷ xs) = let rest = last_n n xs in if leb (length (x ∷ xs)) n then x ∷ xs else rest

  last_n-all : (n : ℕ) (xs : List T) → length xs ≤ n → last_n n xs ≡ xs
  last_n-all n [] h = refl
  last_n-all n (x ∷ xs) h = let e : leb (length (x ∷ xs)) n ≡ true = ground arith in rw e refl

  last_n-less :
      (n : ℕ) (x : T) (xs : List T) → n < length (x ∷ xs) → last_n n (x ∷ xs) ≡ last_n n xs
  last_n-less n x xs h = let e : leb (length (x ∷ xs)) n ≡ false = ground arith in rw e refl

  -- Push_Back does not fail on a deque that may have elements, and the window moves on.
  push_back_lem :
      (x : T) (d : SafeDeque T)
      → 0 < d.queue_size
      → length d.queue ≤ d.queue_size
      → (q : List T) × (push_back x d ≡ some (record d { queue = q }))
        × (length q ≤ d.queue_size)
        × ((xs : List T) → last_n d.queue_size (q ++ xs) ≡ last_n d.queue_size (d.queue ++ x ∷ xs))
  unfolding push_back append_behind
  push_back_lem x d p h = elim (Bool-cases (leb d.queue_size (length d.queue))) [
    | inl full ↦ rw full (moved d.queue refl (ground arith))
    | inr less ↦ rw less (
      d.queue ++ x ∷ [],
      refl,
      let l = length-append d.queue (x ∷ []) in ground arith,
      λ xs. ap (last_n d.queue_size) (append_snoc d.queue x xs),
    )
  ]
    where
      moved :
          (ys : List T)
          → d.queue ≡ ys
          → length d.queue ≡ d.queue_size
          → (q : List T) × (append_behind x ys d ≡ some (record d { queue = q }))
            × (length q ≤ d.queue_size)
            × ((xs : List T)
                → last_n d.queue_size (q ++ xs) ≡ last_n d.queue_size (d.queue ++ x ∷ xs))
      moved [] e f = absurd (omega (arith, p, ap length e))
      moved (y ∷ ys) e f = (
        ys ++ x ∷ [],
        refl,
        omega (arith, f, ap length e, length-append ys (x ∷ [])),
        λ xs.
            ap (last_n d.queue_size) (append_snoc ys x xs)
            ∙ sym (
                last_n-less d.queue_size y (ys ++ x ∷ xs)
                  (omega (arith, f, ap length e, length-append ys (x ∷ xs))))
            ∙ ap (λ t. last_n d.queue_size (t ++ x ∷ xs)) (sym e),
      )

  -- After any number of calls of Push_Back, a deque of `queue_size` elements at most, and one at
  -- least, has the last `queue_size` of what it had and what was pushed, in order.
  pub push_all_lem :
      (xs : List T) (d : SafeDeque T)
      → 0 < d.queue_size
      → length d.queue ≤ d.queue_size
      → push_all xs d ≡ some (record d { queue = last_n d.queue_size (d.queue ++ xs) })
  unfolding push_all
  push_all_lem [] d p h =
      ap (λ q. some (record d { queue = q }))
        (sym (last_n-all d.queue_size d.queue h)
          ∙ ap (last_n d.queue_size) (sym (append_empty d.queue)))
  push_all_lem (x ∷ xs) d p h =
      let (q, run, less, window) = push_back_lem x d p h in
      rw (push_all, run)
        (push_all_lem xs (record d { queue = q }) p less
          ∙ ap (λ t. some (record d { queue = t })) (window xs))
