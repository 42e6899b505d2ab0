-- ===== src/SocketUtil/Sending.antt =====
-- writen, sckClient_send and sckServer_send on a connection that takes bytes in pieces.
use exc.Common.{
  ℕ, zero, suc, ◌+◌, ◌-◌, ◌^◌, ◌≡◌, ◌≢◌, ◌≤◌, ◌<◌, ◌⊎◌, refl, sym, ap, ◌∙◌, arith, subst, Bool,
  true, false, if◌then◌else◌, ltb, ◌&&◌, List, [], ◌∷◌, ◌++◌, some, length, length-append,
  append_empty, ℤ, pos, negsuc, ltb_ℤ, eqb_ℤ, Bool-cases, inl, inr,
}
use mathlib.Core.List.{append_assoc}
use exc.SocketUtil.{
  Net, Attempt, done, as_int, Answer, interrupted, timed_out, bytes_behind, write_step, write_left,
  writen,
}
use exc.SocketUtil.Whole.{as_int-small}
use exc.SocketUtil.Waits.{select_wait, judge, write_timeout}
use exc.SocketUtil.Frames.{
  frame, answer, sck_err_malloc, sck_err_time_out, put_frame, send_failed, send_with, client_send,
  server_send,
}

-- What stands before and after a call of send for `bs`: some front of it is taken, and where that is
-- empty or the call was interrupted there is one interruption less to come.
abbrev pub Send : List ℕ → ℤ → List ℕ → List ℕ → ℕ → ℕ → Bool → Type 0
Send bs (negsuc k) before later p q signal = (later ≡ before) × (q ≤ p) × (signal ≡ true → q < p)
Send bs (pos n) before later p q signal =
    (front : List ℕ) × (length front ≡ n)
    × (bs ≡ front ++ bytes_behind n bs)
    × (later ≡ before ++ front)
    × (q ≤ p)
    × (n ≡ 0 → q < p)

-- `outgoing fd w` is all that the system has taken to send.
pub record IsOutlet {W : Type 0} (net : Net W) (outgoing : ℤ → W → List ℕ) (interrupts : W → ℕ)
    : Type 0 where
  pub send_law :
      (fd : ℤ) (bs : List ℕ) (w : W)
      → 0 < length bs
      → let r = net.send fd bs w in
        Send bs r.0
          (outgoing fd w)
          (outgoing fd r.1)
          (interrupts w)
          (interrupts r.1)
          (interrupted net r.1)
  pub select_outgoing :
      (fd : ℤ) (n : ℕ) (c : ℤ) (w : W) → outgoing c (net.select_write fd n w).1 ≡ outgoing c w
  pub select_interrupts :
      (fd : ℤ) (n : ℕ) (w : W)
      → let r = net.select_write fd n w in
        (interrupts r.1 ≤ interrupts w)
        × (ltb_ℤ r.0 (pos 0) ≡ true → interrupted net r.1 ≡ true → interrupts r.1 < interrupts w)
  pub errno_outgoing : (e : ℤ) (c : ℤ) (w : W) → outgoing c (net.set_errno e w) ≡ outgoing c w
  pub malloc_outgoing : (n : ℕ) (c : ℤ) (w : W) → outgoing c (net.malloc n w).1 ≡ outgoing c w
  pub free_outgoing : (c : ℤ) (w : W) → outgoing c (net.free w) ≡ outgoing c w

both_true : {a b : Bool} → (a && b) ≡ true → (a ≡ true) × (b ≡ true)
both_true {a = true} {b = true} e = (refl, refl)
both_true {a = true} {b = false} e = cc
both_true {a = false} {b} e = cc

-- What a call of a sending function did to the bytes taken: the whole frame of the message with 0; a
-- front of the frame that lacks bytes, with its size; or nothing, with another number. `Idle` is that a
-- call of send took no byte, and yet did not fail.
pub data Sent (Idle : Type 0) (bs before : List ℕ) (ret : ℤ) (later : List ℕ) : Type 0 where
  sent : ret ≡ pos 0 → later ≡ before ++ frame bs → Sent Idle bs before ret later
  part :
      (front back : List ℕ)
      → ret ≡ pos (length front)
      → 0 < length back
      → (length front ≡ 0 → Idle)
      → frame bs ≡ front ++ back
      → later ≡ before ++ front
      → Sent Idle bs before ret later
  refused : ret ≢ pos 0 → later ≡ before → Sent Idle bs before ret later

empty_of : (bs : List ℕ) → length bs ≡ 0 → bs ≡ []
empty_of [] e = refl
empty_of (b ∷ bs) e = absurd (omega arith)

length-frame : (bs : List ℕ) → length (frame bs) ≡ length bs + 4
unfolding frame
length-frame bs = omega arith

module _ {W : Type 0} (net : Net W) (outgoing : ℤ → W → List ℕ) (interrupts : W → ℕ) where
  -- writen returns: with its count, and all is taken; or with -1, and a proper front is.
  abbrev pub Writes : ℤ → ℕ → List ℕ → List ℕ → Attempt (Answer W) → Type 0
  Writes fd count bs before o =
      (a : Answer W) × (front : List ℕ) × (back : List ℕ) × (o ≡ done a)
      × (bs ≡ front ++ back)
      × (outgoing fd a.world ≡ before ++ front)
      × (((a.ret ≡ pos count) × (back ≡ [])) ⊎ ((a.ret ≡ negsuc 0) × (0 < length back)))

  abbrev pub Idles : Type 0
  Idles = (fd : ℤ) × (bs : List ℕ) × (w : W) × (0 < length bs) × ((net.send fd bs w).0 ≡ pos 0)

  abbrev pub Sends : ℤ → List ℕ → List ℕ → Attempt (Answer W) → Type 0
  Sends fd bs before o =
      (a : Answer W) × (o ≡ done a) × Sent Idles bs before a.ret (outgoing fd a.world)

  module _ (h : IsOutlet net outgoing interrupts) where
    write_step-Writes :
        (again : List ℕ → W → Attempt (Answer W)) (fd : ℤ) (count : ℕ) (bs before : List ℕ) (p : ℕ)
        (ret : ℤ) (w : W)
        → 0 < length bs
        → Send bs ret before (outgoing fd w) p (interrupts w) (interrupted net w)
        → ((rest : List ℕ)
            → length rest + interrupts w < length bs + p
            → Writes fd count rest (outgoing fd w) (again rest w))
        → Writes fd count bs before (write_step net again bs ret w)
    unfolding write_step
    write_step-Writes again fd count bs before p (negsuc k) w some_left (same, le, less) ih =
        elim (Bool-cases (interrupted net w)) [
          | inl on ↦
              rw on (
                subst (λ b. Writes fd count bs b (again bs w)) same
                  (ih bs (omega (arith, less on))))
          | inr off ↦ rw off (
            record { ret = negsuc 0; world = w },
            [],
            bs,
            refl,
            refl,
            same ∙ sym (append_empty before),
            inr (refl, some_left),
          )
        ]
    write_step-Writes again fd count bs before p (pos n) w some_left
          (front, size, cut, same, le, less) ih =
        let shorter = ap length cut ∙ length-append front (bytes_behind n bs) in
        let fuel : length (bytes_behind n bs) + interrupts w < length bs + p =
          ground (arith, shorter, size, less) in
        let (a, more, back, e, split, taken, how) = ih (bytes_behind n bs) fuel in
        (
          a,
          front ++ more,
          back,
          e,
          cut ∙ ap (λ l. front ++ l) split ∙ sym (append_assoc front more back),
          taken ∙ ap (λ l. l ++ more) same ∙ append_assoc before front more,
          how,
        )

    write_left-Writes :
        (fuel : ℕ) (fd : ℤ) (count : ℕ) (bs : List ℕ) (w : W)
        → length bs + interrupts w < fuel
        → Writes fd count bs (outgoing fd w) (write_left net fuel fd count bs w)
    unfolding write_left
    write_left-Writes fuel fd count [] w enough = (
      record { ret = pos count; world = w },
      [],
      [],
      refl,
      refl,
      sym (append_empty (outgoing fd w)),
      inl (refl, refl),
    )
    write_left-Writes zero fd count (b ∷ bs) w enough = absurd (omega arith)
    write_left-Writes (suc fuel) fd count (b ∷ bs) w enough =
        let r = net.send fd (b ∷ bs) w in
        write_step-Writes (write_left net fuel fd count) fd count (b ∷ bs) (outgoing fd w)
          (interrupts w) r.0 r.1 (omega arith) (h.send_law fd (b ∷ bs) w (omega arith))
          (λ rest less. write_left-Writes fuel fd count rest r.1 (omega arith))

    -- writen of at most so many bytes as an int counts, with fuel for the bytes and the
    -- interruptions to come, returns: with the count, and the system has taken all the bytes in
    -- order; or with -1, and it has taken a front that lacks at least one byte.
    pub writen-Writes :
        (fuel : ℕ) (fd : ℤ) (bs : List ℕ) (w : W)
        → length bs + interrupts w < fuel
        → length bs < 2 ^ 31
        → Writes fd (length bs) bs (outgoing fd w) (writen net fuel fd bs w)
    unfolding writen as_int
    writen-Writes fuel fd bs w enough small =
        let (a, front, back, e, split, taken, how) =
          write_left-Writes fuel fd (length bs) bs w enough in
        rw e (
          record { ret = as_int a.ret; world = a.world },
          front,
          back,
          refl,
          split,
          taken,
          elim how [
            | inl all ↦ inl (ap as_int all.0 ∙ as_int-small (length bs) small, all.1)
            | inr less ↦ inr (ap as_int less.0, less.1)
          ],
        )

    select_write-Ends :
        (fuel : ℕ) (fd : ℤ) (secs : ℕ) (w : W)
        → interrupts w < fuel
        → (a : Answer W) × (select_wait net fuel (net.select_write fd secs) w ≡ done a)
          × (outgoing fd a.world ≡ outgoing fd w)
    unfolding select_wait
    select_write-Ends zero fd secs w enough = absurd (omega arith)
    select_write-Ends (suc fuel) fd secs w enough =
        let r = net.select_write fd secs w in
        let (le, less) = h.select_interrupts fd secs w in
        let same = h.select_outgoing fd secs fd w in
        elim (Bool-cases (ltb_ℤ r.0 (pos 0) && interrupted net r.1)) [
          | inr off ↦ rw off (record { ret = r.0; world = r.1 }, refl, same)
          | inl on ↦
              let (a, e, s) =
                select_write-Ends fuel fd secs r.1
                  (omega (arith, less (both_true on).0 (both_true on).1)) in
              rw on (a, e, s ∙ same)
        ]

    judge-outgoing : (fd : ℤ) (a : Answer W) → outgoing fd (judge net a).world ≡ outgoing fd a.world
    unfolding judge
    judge-outgoing fd a = ground (arith, h.errno_outgoing net.etimedout fd a.world)

    write_timeout-Ends :
        (fuel : ℕ) (fd : ℤ) (secs : ℕ) (w : W)
        → interrupts w < fuel
        → (a : Answer W) × (write_timeout net fuel fd secs w ≡ done a)
          × (outgoing fd a.world ≡ outgoing fd w)
    unfolding write_timeout
    write_timeout-Ends fuel fd secs w enough = elim (Bool-cases (ltb 0 secs)) [
      | inr off ↦ rw off (record { ret = pos 0; world = w }, refl, refl)
      | inl on ↦
          let (a, e, s) = select_write-Ends fuel fd secs w enough in
          rw (on, e) (judge net a, refl, judge-outgoing fd a ∙ s)
    ]

    freed-Sends :
        (frees : Bool) (fd : ℤ) (bs before : List ℕ) (w : W)
        → outgoing fd w ≡ before ++ frame bs
        → Sends fd bs before (answer (pos 0) (if frees then net.free w else w))
    freed-Sends true fd bs before w taken =
        (record { ret = pos 0; world = net.free w }, refl, sent refl (h.free_outgoing fd w ∙ taken))
    freed-Sends false fd bs before w taken =
        (record { ret = pos 0; world = w }, refl, sent refl taken)

    sent-Sends :
        (frees : Bool) (fd : ℤ) (bs before : List ℕ) (p q : ℕ) (ret : ℤ) (signal : Bool) (w : W)
        → Send (frame bs) ret before (outgoing fd w) p q signal
        → (ret ≡ pos 0 → Idles)
        → Sends fd bs before (
            if ltb_ℤ ret (pos (length bs + 4))
            then answer ret (net.free w)
            else answer (pos 0) (if frees then net.free w else w))
    sent-Sends frees fd bs before p q (negsuc k) signal w (same, le, less) idle =
        let low : ltb_ℤ (negsuc k) (pos (length bs + 4)) ≡ true = ground arith in
        rw low (
          record { ret = negsuc k; world = net.free w },
          refl,
          refused (λ e. cc) (h.free_outgoing fd w ∙ same),
        )
    sent-Sends frees fd bs before p q (pos n) signal w (front, size, cut, same, le, less) idle =
        let sizes = ap length cut ∙ length-append front (bytes_behind n (frame bs)) in
        elim (Bool-cases (ltb_ℤ (pos n) (pos (length bs + 4)))) [
          | inl low ↦ rw low (
            record { ret = pos n; world = net.free w },
            refl,
            part front (bytes_behind n (frame bs)) (ap pos (sym size))
                (ground (arith, sizes, size, length-frame bs)) (λ z. idle (ap pos (sym size ∙ z)))
                cut (h.free_outgoing fd w ∙ same),
          )
          | inr full ↦
              let back : length (bytes_behind n (frame bs)) ≡ 0 =
                ground (arith, sizes, size, length-frame bs) in
              let all : frame bs ≡ front =
                cut
                ∙ ap (λ l. front ++ l) (empty_of (bytes_behind n (frame bs)) back)
                ∙ append_empty front in
              let taken = same ∙ ap (λ l. before ++ l) (sym all) in
              rw full (freed-Sends frees fd bs before w taken)
        ]

    put_frame-Sends :
        (frees : Bool) (fd : ℤ) (bs : List ℕ) (w : W)
        → Sends fd bs (outgoing fd w) (put_frame net frees fd bs w)
    unfolding put_frame
    put_frame-Sends frees fd bs w =
        let m = net.malloc (length bs + 4) w in
        let s = net.send fd (frame bs) m.1 in
        let same = h.malloc_outgoing (length bs + 4) fd w in
        let law = h.send_law fd (frame bs) m.1 (omega (arith, length-frame bs)) in
        elim (Bool-cases m.0) [
          | inr off ↦
              rw off (record { ret = sck_err_malloc; world = m.1 }, refl, refused (λ e. cc) same)
          | inl room ↦ rw room (
              sent-Sends frees fd bs (outgoing fd w) (interrupts m.1) (interrupts s.1) s.0
                (interrupted net s.1) s.1
                (subst
                  (λ l.
                    Send (frame bs) s.0 l (outgoing fd s.1) (interrupts m.1) (interrupts s.1)
                      (interrupted net s.1))
                  same law)
                (λ z. (fd, frame bs, m.1, omega (arith, length-frame bs), z)))
        ]

    send_with-Sends :
        (frees : Bool) (fuel : ℕ) (fd : ℤ) (secs : ℕ) (bs : List ℕ) (w : W)
        → interrupts w < fuel
        → Sends fd bs (outgoing fd w) (send_with net frees fuel fd secs bs w)
    unfolding send_with send_failed
    send_with-Sends frees fuel fd secs bs w enough =
        let (a, e, same) = write_timeout-Ends fuel fd secs w enough in
        rw e (elim (Bool-cases (eqb_ℤ a.ret (pos 0))) [
          | inl ready ↦ rw ready (
              subst (λ l. Sends fd bs l (put_frame net frees fd bs a.world)) same
                (put_frame-Sends frees fd bs a.world))
          | inr off ↦ elim (Bool-cases (eqb_ℤ a.ret (negsuc 0) && timed_out net a.world)) [
            | inl late ↦
                rw (off, late)
                  (record { ret = sck_err_time_out; world = a.world }, refl, refused (λ x. cc) same)
            | inr other ↦
                rw (off, other)
                  (record { ret = a.ret; world = a.world }, refl, refused (λ x. ground arith) same)
          ]
        ])

    -- sckClient_send and sckServer_send of the same message, neither empty nor too long for an int,
    -- return, with fuel for the interruptions to come. Of the frame the system has then taken the whole, and the
    -- number is 0; or a front that lacks bytes, and the number is its size; or nothing.
    pub client_send-Sends :
        (fuel : ℕ) (fd : ℤ) (secs b : ℕ) (bs : List ℕ) (w : W)
        → interrupts w < fuel
        → length (b ∷ bs) ≤ 2 ^ 31 - 5
        → Sends fd (b ∷ bs) (outgoing fd w) (client_send net fuel fd secs (some (b ∷ bs)) w)
          × Sends fd (b ∷ bs) (outgoing fd w) (server_send net fuel fd secs (b ∷ bs) w)
    unfolding client_send server_send
    client_send-Sends fuel fd secs b bs w enough fits =
        let small : ltb (2 ^ 31 - 5) (length (b ∷ bs)) ≡ false = ground arith in
        rw small (
          send_with-Sends true fuel fd secs (b ∷ bs) w enough,
          send_with-Sends false fuel fd secs (b ∷ bs) w enough,
        )
