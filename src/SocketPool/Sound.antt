-- ===== src/SocketPool/Sound.antt =====
-- What a pool is that its clients use rightly, and how it stays so.
use exc.Common.{
  ℕ, suc, ◌+◌, ◌≤◌, ◌<◌, ◌≡◌, refl, sym, ap, ◌∙◌, subst, arith, Bool, true, false, ◌&&◌,
  if◌then◌else◌, ltb, List, [], ◌∷◌, ◌++◌, some, length, length-append, length-set, get_elem?, set,
  ℤ, pos, negsuc, ltb_ℤ, eqb_ℤ, Bool-cases, inl, inr, ◌⊎◌,
}
use exc.SocketPool.{Pool, Os, Answer, sck_err_time_out, connect, close_conn, keep}
use exc.SocketPool.Slots.{
  one_if, held, count, held-last, held-set, AllValid, AllValid-less, AllValid-set,
}

-- What the code relies on: a new descriptor is not open yet, and only `closesocket` closes one.
-- `opened` is what the system knows.
pub record IsOs {W : Type 0} (os : Os W) (opened : W → ℤ → Bool) : Type 0 where
  pub fresh : (w : W) → ltb_ℤ (os.socket w).0 (pos 0) ≡ false → opened w (os.socket w).0 ≡ false
  pub made :
      (w : W)
      → ltb_ℤ (os.socket w).0 (pos 0) ≡ false
      → opened (os.socket w).1 (os.socket w).0 ≡ true
  pub error :
      (w : W)
      → ltb_ℤ (os.socket w).0 (pos 0) ≡ true
      → eqb_ℤ (os.error (os.socket w).1) (pos 0) ≡ false
  pub socket_keeps : (w : W) (fd : ℤ) → opened w fd ≡ true → opened (os.socket w).1 fd ≡ true
  pub connect_keeps :
      (s : ℤ) (w : W) (fd : ℤ) → opened w fd ≡ true → opened (os.connect_timeout s w).1 fd ≡ true
  pub close_keeps :
      (s : ℤ) (w : W) (fd : ℤ)
      → eqb_ℤ s fd ≡ false
      → opened w fd ≡ true
      → opened (os.close_socket s w) fd ≡ true

module _ {W : Type 0} (os : Os W) (opened : W → ℤ → Bool) where
  -- The pool, with the connections that the clients have.
  pub record Sound (p : Pool) (w : W) (lent : List ℤ) : Type 0 where
    pub fds : length p.fd_array ≡ p.bounds
    pub statuses : length p.status_array ≡ p.bounds
    pub room : p.valid + length lent ≤ p.bounds
    pub running : eqb_ℤ p.terminated (pos 1) ≡ false
    pub marked : AllValid p.status_array p.valid
    pub apart : (fd : ℤ) → held p.fd_array p.valid fd + count lent fd ≤ one_if (opened w fd)
    pub signed : (fd : ℤ) → ltb_ℤ fd (pos 0) ≡ true → held p.fd_array p.valid fd + count lent fd ≡ 0

plus_one : (n : ℕ) → n + 1 ≡ suc n
plus_one n = omega arith

-- The pool with one connection more.
abbrev pub kept : Pool → ℤ → Pool
kept p c = record p {
  fd_array = set p.fd_array p.valid c;
  status_array = set p.status_array p.valid (pos 1);
  valid = p.valid + 1;
}

pub some_inj : {A : Type 0} {a b : A} → some a ≡ some b → a ≡ b
some_inj e = cc

module _ {W : Type 0} (os : Os W) (opened : W → ℤ → Bool) (h : IsOs os opened) where
  -- A connection that is made is a new one, and the others stay open.
  pub connect_lem :
      (old : ℤ) (w : W)
      → let a = connect os old w in
        ((eqb_ℤ a.ret (pos 0) ≡ false)
          ⊎ ((opened w a.connfd ≡ false)
              × (opened a.world a.connfd ≡ true)
              × (ltb_ℤ a.connfd (pos 0) ≡ false)))
        × ((fd : ℤ) → opened w fd ≡ true → opened a.world fd ≡ true)
  unfolding connect
  connect_lem old w =
      let s = os.socket w in
      let t = os.connect_timeout s.0 s.1 in
      elim (Bool-cases os.bad_server) [
        | inl b ↦ rw b (inl refl, λ fd o. o)
        | inr b ↦ elim (Bool-cases (ltb_ℤ s.0 (pos 0))) [
          | inl e ↦ rw (b, e) (inl (h.error w e), λ fd o. h.socket_keeps w fd o)
          | inr e ↦ elim (Bool-cases (ltb_ℤ t.0 (pos 0))) [
            | inl d ↦
                rw (b, e, d)
                  (
                    inl (time_out (eqb_ℤ t.0 (negsuc 0) && os.timed_out t.1) t.0 d),
                    λ fd o. h.connect_keeps s.0 s.1 fd (h.socket_keeps w fd o),
                  )
            | inr d ↦
                rw (b, e, d)
                  (
                    inr (h.fresh w e, h.connect_keeps s.0 s.1 s.0 (h.made w e), e),
                    λ fd o. h.connect_keeps s.0 s.1 fd (h.socket_keeps w fd o),
                  )
          ]
        ]
      ]
    where
      time_out :
          (b : Bool) (r : ℤ)
          → ltb_ℤ r (pos 0) ≡ true
          → eqb_ℤ (if b then sck_err_time_out else r) (pos 0) ≡ false
      time_out true r d = refl
      time_out false r d = ground arith

  -- The last valid slot goes to a client.
  pub taken-Sound :
      (p : Pool) (w : W) (lent : List ℤ) (n : ℕ) (fd : ℤ)
      → p.valid ≡ suc n
      → get_elem? p.fd_array n ≡ some fd
      → Sound os opened p w lent
      → Sound os opened (record p { valid = n }) w (fd ∷ lent)
  taken-Sound p w lent n fd e g v = record {
    fds = v.fds;
    statuses = v.statuses;
    room = let r = v.room in omega (arith, e);
    running = v.running;
    marked = AllValid-less p.status_array n (subst (AllValid p.status_array) e v.marked);
    apart = λ x. let a = v.apart x in let m = moved x in omega arith;
    signed = λ x s. let a = v.signed x s in let m = moved x in omega arith;
  }
    where
      last : n < length p.fd_array
      last = let r = v.room in let f = v.fds in omega (arith, e)

      moved : (x : ℤ) → held p.fd_array p.valid x ≡ held p.fd_array n x + one_if (eqb_ℤ fd x)
      moved x =
          let (y, at, c) = held-last p.fd_array n x last in
          let same : y ≡ fd = some_inj (sym at ∙ g) in
          ap (λ k. held p.fd_array k x) e
          ∙ c
          ∙ ap (λ k. held p.fd_array n x + one_if (eqb_ℤ k x)) same

  pub count-middle :
      (before after : List ℤ) (fd x : ℤ)
      → count (before ++ fd ∷ after) x ≡ count (before ++ after) x + one_if (eqb_ℤ fd x)
  count-middle [] after fd x = omega arith
  count-middle (b ∷ before) after fd x = omega (arith, count-middle before after fd x)

  pub length-middle :
      (before after : List ℤ) (fd : ℤ)
      → length (before ++ fd ∷ after) ≡ length (before ++ after) + 1
  length-middle before after fd =
      omega (arith, length-append before (fd ∷ after), length-append before after)

  -- A pool with room takes a connection that neither it nor a client has.
  pub kept-Sound :
      (p : Pool) (w : W) (rest : List ℤ) (c : ℤ)
      → Sound os opened p w rest
      → p.valid + length rest < p.bounds
      → ((x : ℤ)
          → held p.fd_array p.valid x + count rest x + one_if (eqb_ℤ c x) ≤ one_if (opened w x))
      → ltb_ℤ c (pos 0) ≡ false
      → Sound os opened (kept p c) w rest
  kept-Sound p w rest c v room new sign =
      let f = v.fds in
      let s = v.statuses in
      record {
        fds = length-set p.fd_array p.valid c ∙ f;
        statuses = length-set p.status_array p.valid (pos 1) ∙ s;
        room = omega (arith, room);
        running = v.running;
        marked =
            subst (AllValid (kept p c).status_array) (sym (plus_one p.valid))
              (AllValid-set p.status_array p.valid v.marked);
        apart = λ x. let n = new x in let m = added x in omega arith;
        signed = λ x d. let a = v.signed x d in let m = added x in ground arith;
      }
    where
      added :
          (x : ℤ)
          → held (kept p c).fd_array (kept p c).valid x
            ≡ held p.fd_array p.valid x + one_if (eqb_ℤ c x)
      added x =
          ap (λ k. held (kept p c).fd_array k x) (plus_one p.valid)
          ∙ held-set p.fd_array p.valid c x (let f = v.fds in omega (arith, room))

  pub keep_lem :
      (p : Pool) (w : W) (rest : List ℤ) (c : ℤ)
      → Sound os opened p w rest
      → p.valid + length rest < p.bounds
      → keep c p w
        ≡ some (record { ret = pos 0; connfd = pos 0; pool = some (kept p c); world = w })
  unfolding keep
  keep_lem p w rest c v room =
      let f = v.fds in
      let s = v.statuses in
      let in_fds : ltb p.valid (length p.fd_array) ≡ true = ground arith in
      let in_status : ltb p.valid (length p.status_array) ≡ true = ground arith in
      rw (in_fds, in_status) refl

  pub nvalid-Sound :
      (p : Pool) (w : W) (lent : List ℤ) (n : ℕ)
      → Sound os opened p w lent
      → Sound os opened (record p { nvalid = n }) w lent
  nvalid-Sound p w lent n v = record {
    fds = v.fds;
    statuses = v.statuses;
    room = v.room;
    running = v.running;
    marked = v.marked;
    apart = v.apart;
    signed = v.signed;
  }

  -- The connections stay apart while others are made or closed.
  pub still-Sound :
      (p : Pool) (w w' : W) (lent : List ℤ)
      → Sound os opened p w lent
      → ((x : ℤ) → one_if (opened w x) ≤ one_if (opened w' x))
      → Sound os opened p w' lent
  still-Sound p w w' lent v more = record {
    fds = v.fds;
    statuses = v.statuses;
    room = v.room;
    running = v.running;
    marked = v.marked;
    apart = λ x. omega (arith, v.apart x, more x);
    signed = v.signed;
  }

  -- A lent connection is closed: the others stay.
  pub close_conn-Sound :
      (p : Pool) (w : W) (before after : List ℤ) (fd : ℤ)
      → Sound os opened p w (before ++ fd ∷ after)
      → Sound os opened p (close_conn os fd w) (before ++ after)
  unfolding close_conn
  close_conn-Sound p w before after fd v = record {
    fds = v.fds;
    statuses = v.statuses;
    room = omega (arith, v.room, length-middle before after fd);
    running = v.running;
    marked = v.marked;
    apart = λ x. elim (Bool-cases (ltb_ℤ (pos 0) fd)) [
      | inl e ↦ rw e (closed x)
      | inr e ↦ rw e (omega (arith, v.apart x, count-middle before after fd x))
    ];
    signed = λ x s. omega (arith, v.signed x s, count-middle before after fd x);
  }
    where
      closed :
          (x : ℤ)
          → held p.fd_array p.valid x + count (before ++ after) x
            ≤ one_if (opened (os.close_socket fd w) x)
      closed x =
          let a = v.apart x in
          let m = count-middle before after fd x in
          elim (Bool-cases (eqb_ℤ fd x)) [
            | inl e ↦ ground arith
            | inr e ↦ elim (Bool-cases (opened w x)) [
              | inl o ↦ let k = h.close_keeps fd w x e o in ground arith
              | inr o ↦ ground arith
            ]
          ]

  -- A client forgets a connection.
  pub dropped-Sound :
      (p : Pool) (w : W) (before after : List ℤ) (fd : ℤ)
      → Sound os opened p w (before ++ fd ∷ after)
      → Sound os opened p w (before ++ after)
  dropped-Sound p w before after fd v = record {
    fds = v.fds;
    statuses = v.statuses;
    room = omega (arith, v.room, length-middle before after fd);
    running = v.running;
    marked = v.marked;
    apart = λ x. omega (arith, v.apart x, count-middle before after fd x);
    signed = λ x s. omega (arith, v.signed x s, count-middle before after fd x);
  }

  -- After `connect`: either it failed, or the new connection is apart from all others.
  pub connect-Sound :
      (p : Pool) (w : W) (lent : List ℤ) (old : ℤ)
      → Sound os opened p w lent
      → let a = connect os old w in
        Sound os opened p a.world lent
        × ((eqb_ℤ a.ret (pos 0) ≡ false)
            ⊎ (((x : ℤ)
                  → held p.fd_array p.valid x + count lent x + one_if (eqb_ℤ a.connfd x)
                    ≤ one_if (opened a.world x))
                × (ltb_ℤ a.connfd (pos 0) ≡ false)))
  connect-Sound p w lent old v =
      let c = connect_lem old w in
      (
        still-Sound p w a.world lent v more,
        elim c.0 [ inl e ↦ inl e | inr n ↦ inr (λ x. apart_from n.0 n.1 x, n.2) ],
      )
    where
      a : Answer W
      a = connect os old w

      more : (x : ℤ) → one_if (opened w x) ≤ one_if (opened a.world x)
      more x = elim (Bool-cases (opened w x)) [
        | inl o ↦ let k = (connect_lem old w).1 x o in ground arith
        | inr o ↦ ground arith
      ]

      apart_from :
          opened w a.connfd ≡ false
          → opened a.world a.connfd ≡ true
          → (x : ℤ)
          → held p.fd_array p.valid x + count lent x + one_if (eqb_ℤ a.connfd x)
            ≤ one_if (opened a.world x)
      apart_from before behind x =
          let m = more x in
          let b = v.apart x in
          elim (Bool-cases (eqb_ℤ a.connfd x)) [
            | inl e ↦
                let same : a.connfd ≡ x = ground arith in
                let o : opened w x ≡ false = subst (λ y. opened w y ≡ false) same before in
                let n : opened a.world x ≡ true =
                  subst (λ y. opened a.world y ≡ true) same behind in
                ground arith
            | inr e ↦ ground arith
          ]
