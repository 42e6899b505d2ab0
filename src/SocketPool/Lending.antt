-- ===== src/SocketPool/Lending.antt =====
-- A connection is in the pool once, or at one client: nobody shares it.
use exc.Common.{
  suc, ◌+◌, ◌-◌, ◌≤◌, ◌<◌, ◌≡◌, refl, subst, arith, Bool, true, false, leb, ◌==◌, List, ◌∷◌, ◌++◌,
  some, length, get_elem?, ℤ, pos, ltb_ℤ, eqb_ℤ, Bool-cases, inl, inr, ◌⊎◌,
}
use exc.SocketPool.{
  Pool, Reply, Answer, Os, valid_is_zero, connect, close_conn, failed, hand_out, check_status,
  get_connet, exist, renew, put_back, put_connet,
}
use exc.SocketPool.Slots.{one_if, held, held-last, exist-held, AllValid, AllValid-last}
use exc.SocketPool.Sound.{
  IsOs, Sound, kept, kept-Sound, keep_lem, taken-Sound, count-middle, length-middle,
  close_conn-Sound, dropped-Sound, connect-Sound,
}

module _ {W : Type 0} (os : Os W) (opened : W → ℤ → Bool) (h : IsOs os opened) where
  -- `sckCltPool_getConnet` on a pool that is used rightly: it refuses where no connection is left,
  -- and else gives one that no other client has, without making it again.
  pub get_connet_lem :
      (p : Pool) (w : W) (lent : List ℤ)
      → Sound os opened p w lent
      → ((p.valid ≡ 0) × (get_connet os (some p) true w ≡ failed valid_is_zero p w))
        ⊎ ((0 < p.valid)
            × (fd : ℤ) × (p' : Pool) × (get_connet os (some p) true w
                ≡ some (record { ret = pos 0; connfd = fd; pool = some p'; world = w }))
            × (p'.valid + 1 ≡ p.valid)
            × Sound os opened p' w (fd ∷ lent))
  unfolding get_connet check_status hand_out
  get_connet_lem p w lent v = elim (Bool-cases (p.valid == 0)) [
    | inl z ↦ let r = v.running in inl (ground arith, rw (r, z) refl)
    | inr z ↦
        let n = p.valid - 1 in
        let e : p.valid ≡ suc n = ground arith in
        let room = v.room in
        let f = v.fds in
        let s = v.statuses in
        let r = v.running in
        let (fd, at, _) = held-last p.fd_array n (pos 0) (omega arith) in
        let valid : get_elem? p.status_array n ≡ some (pos 1) =
          AllValid-last p.status_array n (omega arith)
            (subst (AllValid p.status_array) e v.marked) in
        inr (
          omega arith,
          fd,
          record p { valid = n },
          rw (r, z, valid, at) refl,
          omega arith,
          taken-Sound os opened h p w lent n fd e at v,
        )
  ]

  room_left :
      (p : Pool) (w : W) (before after : List ℤ) (fd : ℤ)
      → Sound os opened p w (before ++ fd ∷ after)
      → p.valid + length (before ++ after) < p.bounds
  room_left p w before after fd v = omega (arith, v.room, length-middle os opened h before after fd)

  -- What the attempt to make a new connection has led to: it is kept, or the pool is as before.
  abbrev pub Renewed : Answer W → Pool → Reply W → Pool → Type 0
  Renewed made p r p' =
      (r.world ≡ made.world)
      × (((eqb_ℤ made.ret (pos 0) ≡ true) × (r.ret ≡ pos 0) × (p' ≡ kept p made.connfd))
          ⊎ ((eqb_ℤ made.ret (pos 0) ≡ false) × (r.ret ≡ made.ret) × (p' ≡ p)))

  -- A connection is closed, and a new one takes its place if the server can be reached.
  renew-Sound :
      (p : Pool) (w : W) (before after : List ℤ) (fd : ℤ)
      → Sound os opened p w (before ++ fd ∷ after)
      → (r : Reply W) × (p' : Pool) × (renew os fd p w ≡ some r)
        × (r.pool ≡ some p')
        × Sound os opened p' r.world (before ++ after)
        × Renewed (connect os (pos 0) (close_conn os fd w)) p r p'
  unfolding renew
  renew-Sound p w before after fd v =
      let w1 = close_conn os fd w in
      let a = connect os (pos 0) w1 in
      let (still, result) =
        connect-Sound os opened h p w1 (before ++ after) (pos 0)
          (close_conn-Sound os opened h p w before after fd v) in
      elim result [
        | inl fails ↦ (
          record { ret = a.ret; connfd = pos 0; pool = some p; world = a.world },
          p,
          rw fails refl,
          refl,
          still,
          (refl, inr (fails, refl, refl)),
        )
        | inr new ↦ elim (Bool-cases (eqb_ℤ a.ret (pos 0))) [
          | inl ok ↦
              let room = room_left p w before after fd v in
              (
                record {
                  ret = pos 0;
                  connfd = pos 0;
                  pool = some (kept p a.connfd);
                  world = a.world;
                },
                kept p a.connfd,
                rw ok (keep_lem os opened h p a.world (before ++ after) a.connfd still room),
                refl,
                kept-Sound os opened h p a.world (before ++ after) a.connfd still room new.0 new.1,
                (refl, inl (ok, refl, refl)),
              )
          | inr fails ↦ (
            record { ret = a.ret; connfd = pos 0; pool = some p; world = a.world },
            p,
            rw fails refl,
            refl,
            still,
            (refl, inr (fails, refl, refl)),
          )
        ]
      ]

  -- A connection that a client has passes all the tests of `sckCltPool_putConnet`.
  put_back_tests :
      (p : Pool) (w : W) (before after : List ℤ) (fd : ℤ)
      → Sound os opened p w (before ++ fd ∷ after)
      → (ltb_ℤ fd (pos 0) ≡ false)
        × (exist p.fd_array p.valid fd ≡ false)
        × (leb p.bounds p.valid ≡ false)
  put_back_tests p w before after fd v =
      let room = v.room in
      let a = v.apart fd in
      let m = count-middle os opened h before after fd fd in
      let one : one_if (opened w fd) ≤ 1 = ground arith in
      let here : held p.fd_array p.valid fd ≡ 0 = ground arith in
      let len = length-middle os opened h before after fd in
      (
        elim (Bool-cases (ltb_ℤ fd (pos 0))) [
          | inl s ↦ let z = v.signed fd s in absurd (ground arith)
          | inr s ↦ s
        ],
        exist-held p.fd_array p.valid fd here,
        ground arith,
      )

  -- `sckCltPool_putConnet` of a connection that the client has, among those lent `before` and
  -- `after` it, on a pool that is used rightly: it ends, and the connections stay apart. With the
  -- flag 1 nothing is called, and this very connection is kept in the next place of the pool. With
  -- another flag the system is left as closing the connection and then trying to connect leave it:
  -- the new connection is kept in the next place, or, where that failed, the pool is as before and
  -- the error is returned.
  pub put_connet_lem :
      (p : Pool) (w : W) (before after : List ℤ) (fd valid_flag : ℤ)
      → Sound os opened p w (before ++ fd ∷ after)
      → (r : Reply W) × (p' : Pool) × (put_connet os (some p) fd valid_flag w ≡ some r)
        × (r.pool ≡ some p')
        × Sound os opened p' r.world (before ++ after)
        × (((eqb_ℤ valid_flag (pos 1) ≡ true) × (r.ret ≡ pos 0) × (r.world ≡ w) × (p' ≡ kept p fd))
            ⊎ ((eqb_ℤ valid_flag (pos 1) ≡ false)
                × Renewed (connect os (pos 0) (close_conn os fd w)) p r p'))
  unfolding put_connet put_back
  put_connet_lem p w before after fd valid_flag v =
      let run = v.running in
      let (sign, absent, less) = put_back_tests p w before after fd v in
      elim (Bool-cases (eqb_ℤ valid_flag (pos 1))) [
        | inl e ↦
            let u = dropped-Sound os opened h p w before after fd v in
            let room = room_left p w before after fd v in
            (
              record { ret = pos 0; connfd = pos 0; pool = some (kept p fd); world = w },
              kept p fd,
              rw (sign, run, absent, less, e)
                  (keep_lem os opened h p w (before ++ after) fd u room),
              refl,
              kept-Sound os opened h p w (before ++ after) fd u room
                  (λ x. omega (arith, v.apart x, count-middle os opened h before after fd x)) sign,
              inl (e, refl, refl, refl),
            )
        | inr e ↦
            let (r, p', renewed, same, sound, result) = renew-Sound p w before after fd v in
            (r, p', rw (sign, run, absent, less, e) renewed, same, sound, inr (e, result))
      ]
