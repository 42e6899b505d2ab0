-- ===== src/SocketUtil/Blocks.antt =====
-- The blocks of memory that the sending functions take from malloc.
use exc.Common.{
  ℕ, zero, suc, ◌+◌, ◌-◌, ◌^◌, ◌≡◌, ◌≢◌, refl, ◌∙◌, arith, subst, Bool, true, false, ltb, ◌&&◌, ◌<◌,
  if◌then◌else◌, List, [], ◌∷◌, Option, none, some, length, ℤ, pos, ltb_ℤ, eqb_ℤ, Bool-cases, inl,
  inr,
}
use exc.SocketUtil.{Net, Attempt, done, stuck, undefined, ◌>>=◌, Answer, interrupted}
use exc.SocketUtil.Waits.{select_wait, judge, write_timeout}
use exc.SocketUtil.Frames.{frame, put_frame, send_failed, send_with, client_send, server_send}

-- `blocks` counts what malloc gave and free did not take back.
pub record CountsBlocks {W : Type 0} (net : Net W) (blocks : W → ℕ) : Type 0 where
  pub malloc_law :
      (n : ℕ) (w : W)
      → blocks (net.malloc n w).1 ≡ (if (net.malloc n w).0 then blocks w + 1 else blocks w)
  pub free_law : (w : W) → blocks (net.free w) ≡ blocks w - 1
  pub send_blocks : (fd : ℤ) (bs : List ℕ) (w : W) → blocks (net.send fd bs w).1 ≡ blocks w
  pub select_blocks : (fd : ℤ) (n : ℕ) (w : W) → blocks (net.select_write fd n w).1 ≡ blocks w
  pub errno_blocks : (e : ℤ) (w : W) → blocks (net.set_errno e w) ≡ blocks w

module _ {W : Type 0} (net : Net W) (blocks : W → ℕ) (h : CountsBlocks net blocks) where
  -- A call that returns with 0 has `k` blocks more than the call found, and with another number none.
  abbrev pub Adds : ℕ → ℕ → Attempt (Answer W) → Type 0
  Adds k before stuck = Unit
  Adds k before undefined = Unit
  Adds k before (done a) = blocks a.world ≡ before + (if eqb_ℤ a.ret (pos 0) then k else 0)

  select_wait-blocks :
      (fuel : ℕ) (fd : ℤ) (secs : ℕ) (w : W) (a : Answer W)
      → select_wait net fuel (net.select_write fd secs) w ≡ done a
      → blocks a.world ≡ blocks w
  unfolding select_wait
  select_wait-blocks zero fd secs w a e = cc
  select_wait-blocks (suc fuel) fd secs w a e =
      let r = net.select_write fd secs w in
      elim (Bool-cases (ltb_ℤ r.0 (pos 0) && interrupted net r.1)) [
        | inl on ↦ select_wait-blocks fuel fd secs r.1 a (rw on at e) ∙ h.select_blocks fd secs w
        | inr off ↦
            let is : done (record { ret = r.0; world = r.1 }) ≡ done a = rw off at e in
            let same : record { ret = r.0; world = r.1 } ≡ a = cc in
            subst (λ b. blocks b.world ≡ blocks w) same (h.select_blocks fd secs w)
      ]

  judge-blocks : (a : Answer W) → blocks (judge net a).world ≡ blocks a.world
  unfolding judge
  judge-blocks a = ground (arith, h.errno_blocks net.etimedout a.world)

  write_timeout-blocks :
      (fuel : ℕ) (fd : ℤ) (secs : ℕ) (w : W) (a : Answer W)
      → write_timeout net fuel fd secs w ≡ done a
      → blocks a.world ≡ blocks w
  unfolding write_timeout
  write_timeout-blocks fuel fd secs w a e = elim (Bool-cases (ltb 0 secs)) [
    | inl on ↦ waited (select_wait net fuel (net.select_write fd secs) w) refl (rw on at e)
    | inr off ↦
        let is : done (record { ret = pos 0; world = w }) ≡ done a = rw off at e in
        let same : record { ret = pos 0; world = w } ≡ a = cc in
        subst (λ b. blocks b.world ≡ blocks w) same refl
  ]
    where
      waited :
          (o : Attempt (Answer W))
          → select_wait net fuel (net.select_write fd secs) w ≡ o
          → (o >>= λ b. done (judge net b)) ≡ done a
          → blocks a.world ≡ blocks w
      waited stuck p q = cc
      waited undefined p q = cc
      waited (done b) p q =
          let same : judge net b ≡ a = cc in
          subst (λ x. blocks x.world ≡ blocks w) same
            (judge-blocks b ∙ select_wait-blocks fuel fd secs w b p)

  send_failed-Adds :
      (k before : ℕ) (a : Answer W)
      → blocks a.world ≡ before
      → eqb_ℤ a.ret (pos 0) ≡ false
      → Adds k before (send_failed net a)
  unfolding send_failed
  send_failed-Adds k before a e off = ground arith

  put_frame-Adds :
      (frees : Bool) (fd : ℤ) (bs : List ℕ) (w : W)
      → ((c : ℤ) (l : List ℕ) (v : W) → 0 < length l → (net.send c l v).0 ≢ pos 0)
      → Adds (if frees then 0 else 1) (blocks w) (put_frame net frees fd bs w)
  unfolding put_frame
  put_frame-Adds frees fd bs w busy =
      let m = net.malloc (length bs + 4) w in
      let s = net.send fd (frame bs) m.1 in
      ground (
        arith,
        h.malloc_law (length bs + 4) w,
        h.send_blocks fd (frame bs) m.1,
        h.free_law s.1,
        busy fd (frame bs) m.1 (omega arith),
      )

  send_with-Adds :
      (frees : Bool) (fuel : ℕ) (fd : ℤ) (secs : ℕ) (bs : List ℕ) (w : W)
      → ((c : ℤ) (l : List ℕ) (v : W) → 0 < length l → (net.send c l v).0 ≢ pos 0)
      → Adds (if frees then 0 else 1) (blocks w) (send_with net frees fuel fd secs bs w)
  unfolding send_with
  send_with-Adds frees fuel fd secs bs w busy = ready (write_timeout net fuel fd secs w) refl
    where
      ready :
          (o : Attempt (Answer W))
          → write_timeout net fuel fd secs w ≡ o
          → Adds (if frees then 0 else 1) (blocks w) (
              o >>= λ a.
              if eqb_ℤ a.ret (pos 0) then put_frame net frees fd bs a.world else send_failed net a)
      ready stuck e = tt
      ready undefined e = tt
      ready (done a) e =
          let same = write_timeout-blocks fuel fd secs w a e in
          elim (Bool-cases (eqb_ℤ a.ret (pos 0))) [
            | inl zero_ret ↦ rw zero_ret (
                subst (λ b. Adds (if frees then 0 else 1) b (put_frame net frees fd bs a.world))
                  same (put_frame-Adds frees fd bs a.world busy))
            | inr other ↦
                rw other (send_failed-Adds (if frees then 0 else 1) (blocks w) a same other)
          ]

  -- Whenever they return, and send takes a byte or fails: sckClient_send leaves as many blocks as it
  -- found, on every branch. sckServer_send leaves as many too where it fails, but each call that
  -- succeeds leaves one block more, the frame that it has sent.
  pub client_send-Adds :
      (fuel : ℕ) (fd : ℤ) (secs : ℕ) (msg : Option (List ℕ)) (bs : List ℕ) (w : W)
      → ((c : ℤ) (l : List ℕ) (v : W) → 0 < length l → (net.send c l v).0 ≢ pos 0)
      → Adds 0 (blocks w) (client_send net fuel fd secs msg w)
        × Adds 1 (blocks w) (server_send net fuel fd secs bs w)
  client_send-Adds fuel fd secs msg bs w busy = (client msg, server)
    where
      client : (o : Option (List ℕ)) → Adds 0 (blocks w) (client_send net fuel fd secs o w)
      client none = unfold client_send in omega arith
      client (some []) = unfold client_send in omega arith
      client (some (b ∷ l)) =
          unfold client_send in
          elim (Bool-cases (ltb (2 ^ 31 - 5) (length (b ∷ l)))) [
            | inl long ↦ rw long tt
            | inr fits ↦ rw fits (send_with-Adds true fuel fd secs (b ∷ l) w busy)
          ]

      server : Adds 1 (blocks w) (server_send net fuel fd secs bs w)
      server =
          unfold server_send in
          elim (Bool-cases (ltb (2 ^ 31 - 5) (length bs))) [
            | inl long ↦ rw long tt
            | inr fits ↦ rw fits (send_with-Adds false fuel fd secs bs w busy)
          ]
