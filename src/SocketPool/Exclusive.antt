-- ===== src/SocketPool/Exclusive.antt =====
-- No connection is given to two clients, and none is lost sight of.
use exc.Common.{
  ◌≡◌, refl, sym, ap, ◌∙◌, subst, arith, Bool, List, [], ◌∷◌, ◌++◌, Option, none, some, ℤ, pos,
  pos_part, Bool-cases, inl, inr,
}
use exc.SocketPool.{Pool, Reply, Os, valid_is_zero}
use exc.SocketPool.Sound.{IsOs, Sound, some_inj, still-Sound}
use exc.SocketPool.Lending.{get_connet_lem, put_connet_lem}
use exc.SocketPool.Open.{init_lem, Serving}
use exc.SocketPool.Open.Serving.{started, got, given, meanwhile}

module _ {W : Type 0} (os : Os W) (opened : W → ℤ → Bool) (h : IsOs os opened) where
  -- Which pool and world the reply of a call has.
  reply_lem :
      {o : Option (Reply W)} (lent : List ℤ) (r s : Reply W) (p q : Pool)
      → o ≡ some r
      → r.pool ≡ some p
      → o ≡ some s
      → s.pool ≡ some q
      → Sound os opened q s.world lent
      → Sound os opened p r.world lent
  reply_lem lent r s p q e f d g v =
      let same : s ≡ r = some_inj (sym d ∙ e) in
      let pool : q ≡ p = some_inj (sym g ∙ ap (λ t. t.pool) same ∙ f) in
      subst (λ t. Sound os opened p t.world lent) same
        (subst (λ t. Sound os opened t s.world lent) pool v)

  -- Whatever the clients do with connections that they have: each connection is in the pool once or
  -- at one client, all of them are open, and there are no more than `bounds`. `init` has got its
  -- memory, with a `terminated` that happens not to be 1; the system gives new descriptors only.
  pub Serving-Sound :
      {p : Pool} {w : W} {lent : List ℤ} → Serving os opened h p w lent → Sound os opened p w lent
  Serving-Sound (started start m bounds w r p k ok e f) =
      let (s, run, result) = init_lem os opened h start m bounds w k ok in
      elim result [
        | inl fails ↦
            absurd (impossible (sym (ap (λ t. t.pool) (some_inj (sym run ∙ e)) ∙ f) ∙ fails.1))
        | inr (good, q, g, _, _, v) ↦ reply_lem [] r s p q e f run g v
      ]
    where
      impossible : some p ≡ none → ⊥
      impossible d = absurd (cc d)
  Serving-Sound (got p p' w lent r was e z f) =
      elim (get_connet_lem os opened h p w lent (Serving-Sound was)) [
        | inl refused ↦
            let s = some_inj (sym refused.1 ∙ e) in
            absurd (let t = ap (λ t. t.ret) s ∙ z in not_zero t)
        | inr (_, fd, q, run, _, v) ↦
            let s : Reply W = record { ret = pos 0; connfd = fd; pool = some q; world = w } in
            let same : fd ≡ r.connfd = ap (λ t. t.connfd) (some_inj (sym run ∙ e)) in
            subst (λ c. Sound os opened p' r.world (c ∷ lent)) same
              (reply_lem (fd ∷ lent) r s p' q e f run refl v)
      ]
    where
      not_zero : valid_is_zero ≡ pos 0 → ⊥
      not_zero t = let q = ap pos_part t in absurd (omega (arith, q))
  Serving-Sound (given p p' w before after fd valid_flag r was e f) =
      let (s, q, run, g, v, _) =
        put_connet_lem os opened h p w before after fd valid_flag (Serving-Sound was) in
      reply_lem (before ++ after) r s p' q e f run g v
  Serving-Sound (meanwhile p w w' lent was more) =
      still-Sound os opened h p w w' lent (Serving-Sound was) (λ x. elim (Bool-cases (opened w x)) [
        | inl o ↦ let k = more x o in ground arith
        | inr o ↦ ground arith
      ])
