-- ===== src/SocketPool/Open.antt =====
-- The pool from `sckCltPool_init` on, whatever its clients do.
use exc.Common.{
  ℕ, zero, suc, ◌+◌, ◌-◌, ◌≡◌, refl, arith, Bool, true, false, ltb, List, [], ◌∷◌, ◌++◌, none, some,
  length, get_or, ℤ, pos, eqb_ℤ, Bool-cases, inl, inr, ◌⊎◌,
}
use exc.SocketPool.{
  Pool, Reply, Os, Memory, create_conn, connect, fresh_pool, connect_all, fill, init, get_connet,
  put_connet,
}
use exc.SocketPool.Sound.{IsOs, Sound, kept, kept-Sound, nvalid-Sound, connect-Sound}

module _ {W : Type 0} (os : Os W) (opened : W → ℤ → Bool) (h : IsOs os opened) where
  -- The loop stops with too few connections, or has made all of them.
  connect_all_lem :
      (n : ℕ) (p : Pool) (w : W)
      → p.valid + n ≡ p.bounds
      → Sound os opened p w []
      → let r = connect_all os n p w in
        (ltb r.0.valid r.0.bounds ≡ true)
        ⊎ ((r.0.valid ≡ p.bounds) × (r.0.bounds ≡ p.bounds) × Sound os opened r.0 r.1 [])
  unfolding connect_all
  connect_all_lem zero p w e v = inr (omega (arith, e), refl, v)
  connect_all_lem (suc n) p w e v =
      let i : p.bounds - suc n ≡ p.valid = omega (arith, e) in
      let old = get_or p.fd_array p.valid (pos 0) in
      let a = connect os old w in
      let less : ltb p.valid p.bounds ≡ true = ground arith in
      let (still, result) = connect-Sound os opened h p w [] old v in
      rw i (elim (Bool-cases (eqb_ℤ a.ret (pos 0))) [
        | inr fails ↦ rw fails (inl less)
        | inl ok ↦ elim result [
          | inl fails ↦ rw fails (inl less)
          | inr new ↦
              let q = record (kept p a.connfd) { nvalid = p.nvalid - 1 } in
              let sound = nvalid-Sound os opened h (kept p a.connfd) a.world [] (p.nvalid - 1) (
                kept-Sound os opened h p a.world [] a.connfd still (omega (arith, e)) new.0
                  new.1) in
              rw ok (connect_all_lem n q a.world (omega (arith, e)) sound)
        ]
      ])

  fresh-Sound :
      (w : W) (terminated : ℤ) (fds status : List ℤ) (bounds : ℕ)
      → eqb_ℤ terminated (pos 1) ≡ false
      → length fds ≡ bounds
      → length status ≡ bounds
      → Sound os opened (fresh_pool terminated fds status bounds) w []
  fresh-Sound w terminated fds status bounds t f s = record {
    fds = f;
    statuses = s;
    room = omega arith;
    running = t;
    marked = tt;
    apart = λ x. omega arith;
    signed = λ x d. omega arith;
  }

  -- What malloc gave is enough, and `terminated` happens not to be 1.
  pub record HasMemory (m : Memory) (bounds : ℕ) : Type 0 where
    pub terminated : ℤ
    pub fds : List ℤ
    pub status : List ℤ
    pub handle_given : m.handle_block ≡ some terminated
    pub lock_given : m.lock_block ≡ true
    pub fds_given : m.fd_block ≡ some fds
    pub status_given : m.status_block ≡ some status
    pub not_terminated : eqb_ℤ terminated (pos 1) ≡ false
    pub fds_length : length fds ≡ bounds
    pub status_length : length status ≡ bounds

  -- A pool is full, or there is none.
  abbrev Filled : ℕ → Reply W → Type 0
  Filled bounds r =
      ((r.ret ≡ create_conn) × (r.pool ≡ none))
      ⊎ ((r.ret ≡ pos 0)
          × (p : Pool) × (r.pool ≡ some p)
          × (p.valid ≡ bounds)
          × (p.bounds ≡ bounds)
          × Sound os opened p r.world [])

  fill_lem :
      (p : Pool) (w : W) → p.valid ≡ 0 → Sound os opened p w [] → Filled p.bounds (fill os p w)
  unfolding fill
  fill_lem p w z v =
      let q = (connect_all os p.bounds p w).0 in
      elim (connect_all_lem p.bounds p w (omega (arith, z)) v) [
        | inl less ↦ rw less (inl (refl, refl))
        | inr all ↦
            let e = all.0 in
            let f = all.1 in
            let full : ltb q.valid q.bounds ≡ false = ground arith in
            rw full (inr (refl, q, refl, e, f, all.2))
      ]

  -- `sckCltPool_init`, where malloc gives all its blocks, `terminated` happens not to be 1 and
  -- `sckClient_init` succeeds: it ends, either with no pool, or with one of `bounds` connections
  -- that are all open and different.
  pub init_lem :
      (start : W → ℤ × W) (m : Memory) (bounds : ℕ) (w : W)
      → HasMemory m bounds
      → eqb_ℤ (start w).0 (pos 0) ≡ true
      → (r : Reply W) × (init os start m bounds w ≡ some r) × Filled bounds r
  unfolding init
  init_lem start m bounds w k ok =
      let p = fresh_pool k.terminated k.fds k.status bounds in
      let w1 = (start w).1 in
      let v =
        fresh-Sound w1 k.terminated k.fds k.status bounds k.not_terminated k.fds_length
          k.status_length in
      (
        fill os p w1,
        rw (k.handle_given, k.lock_given, k.fds_given, k.status_given, ok) refl,
        fill_lem p w1 refl v,
      )

  -- The pool, the system and the connections that the clients have, after any sequence of calls in
  -- which the clients give back only what they have. `meanwhile` is the rest of the program, which
  -- may open sockets of its own.
  pub data Serving : Pool → W → List ℤ → Type 0 where
    started :
        (start : W → ℤ × W) (m : Memory) (bounds : ℕ) (w : W) (r : Reply W) (p : Pool)
        → HasMemory m bounds
        → eqb_ℤ (start w).0 (pos 0) ≡ true
        → init os start m bounds w ≡ some r
        → r.pool ≡ some p
        → Serving p r.world []
    got :
        (p p' : Pool) (w : W) (lent : List ℤ) (r : Reply W)
        → Serving p w lent
        → get_connet os (some p) true w ≡ some r
        → r.ret ≡ pos 0
        → r.pool ≡ some p'
        → Serving p' r.world (r.connfd ∷ lent)
    given :
        (p p' : Pool) (w : W) (before after : List ℤ) (fd valid_flag : ℤ) (r : Reply W)
        → Serving p w (before ++ fd ∷ after)
        → put_connet os (some p) fd valid_flag w ≡ some r
        → r.pool ≡ some p'
        → Serving p' r.world (before ++ after)
    meanwhile :
        (p : Pool) (w w' : W) (lent : List ℤ)
        → Serving p w lent
        → ((fd : ℤ) → opened w fd ≡ true → opened w' fd ≡ true)
        → Serving p w' lent
