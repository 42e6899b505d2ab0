-- ===== src/SocketUtil/Receive.antt =====
-- sckClient_rev and sckServer_rev on any stream.
use exc.Common.{
  ℕ, zero, suc, ◌+◌, ◌-◌, ◌%◌, ◌^◌, ◌≡◌, ◌≢◌, ◌≤◌, ◌<◌, ◌⊎◌, refl, sym, ap, ◌∙◌, arith, subst, Bool,
  true, false, ◌==◌, ltb, List, [], ◌∷◌, ◌++◌, Option, none, some, length, length-append, All, ℤ,
  pos, negsuc, ltb_ℤ, eqb_ℤ, ◌&&◌, ◌||◌, Bool-cases, inl, inr,
}
use mathlib.Core.List.{append_assoc}
use exc.SocketUtil.{Net, Attempt, done, undefined, ◌>>=◌, Answer, interrupted, timed_out}
use exc.SocketUtil.Waits.{select_wait, judge, read_timeout}
use exc.SocketUtil.Frames.{
  Delivery, frame, from_bytes, htonl_bytes, ntohl_int, sck_err_peer_closed, sck_err_malloc,
  sck_err_time_out, body_read, astray, read_body, length_read, after_wait, client_rev,
}
use exc.SocketUtil.Stream.{IsStream, Breaks, ReadEnd, whole, short, broken}
use exc.SocketUtil.Whole.{read_all-Ends, readn-Ends}
use exc.SocketUtil.Lengths.{
  IsByte, htonl_bytes-from_bytes, ntohl_int-pos, ntohl_int-negsuc, All-append_left, Cut, Cut-length,
  Cut-body,
}

-- The ways in which a message is received, or not. `Denied` is that malloc failed.
pub data Receipt (Broken Denied Late : Type 0) (before : List ℕ) (ret : ℤ) (out : Option (List ℕ))
    (outlen : ℤ) (later : List ℕ) : Type 0 where
  message :
      (body : List ℕ)
      → ret ≡ pos 0
      → out ≡ some (body ++ 0 ∷ [])
      → outlen ≡ pos (length body)
      → before ≡ frame body ++ later
      → length body < 2 ^ 31 - 1
      → Receipt Broken Denied Late before ret out outlen later
  closed :
      ret ≡ sck_err_peer_closed
      → out ≡ none
      → Cut before
      → later ≡ []
      → Receipt Broken Denied Late before ret out outlen later
  failed :
      ret ≡ negsuc 0 → out ≡ none → Broken → Receipt Broken Denied Late before ret out outlen later
  denied :
      ret ≡ sck_err_malloc
      → out ≡ none
      → Denied
      → Receipt Broken Denied Late before ret out outlen later
  unready :
      ret ≢ pos 0
      → out ≡ none
      → later ≡ before
      → Late
      → Receipt Broken Denied Late before ret out outlen later

-- The stream declares a length that is no positive int, or the largest.
abbrev pub Wild : List ℕ → Type 0
Wild before =
    (head : List ℕ) × (rest : List ℕ) × (before ≡ head ++ rest)
    × (length head ≡ 4)
    × (2 ^ 31 - 1 ≤ from_bytes 0 head)

both_true : {a b : Bool} → (a && b) ≡ true → (a ≡ true) × (b ≡ true)
both_true {a = true} {b = true} e = (refl, refl)
both_true {a = true} {b = false} e = cc
both_true {a = false} {b} e = cc

below_largest : (n : ℕ) → n < 2 ^ 31 → (n == 2 ^ 31 - 1) ≡ false → n < 2 ^ 31 - 1
below_largest n small usual = ground arith

eqb_zero : (z : ℤ) → eqb_ℤ z (pos 0) ≡ false → z ≢ pos 0
eqb_zero z off e = ground arith

ReadEnd-le :
    {Broken : Type 0} {n : ℕ} {before : List ℕ} {ret : ℤ} {buf later : List ℕ}
    → ReadEnd Broken n before ret buf later
    → length later ≤ length before
ReadEnd-le {buf} {later} (whole e full same) =
    omega (arith, ap length same, length-append buf later)
ReadEnd-le {before} (short e less all empty) = omega (arith, ap length empty)
ReadEnd-le {buf} {later} (broken e less front why) =
    omega (arith, ap length front, length-append buf later)

-- The wait for something to read did not give 0.
abbrev pub Late : {W : Type 0} → Net W → ℕ → ℤ → ℕ → W → Type 0
Late {W} net fuel fd revtime w =
    (a : Answer W) × (read_timeout net fuel fd revtime w ≡ done a) × (eqb_ℤ a.ret (pos 0) ≡ false)

module _ {W : Type 0} (net : Net W) (incoming : ℤ → W → List ℕ) (interrupts : W → ℕ) where
  -- A call of malloc gave no block.
  abbrev pub Denies : Type 0
  Denies = (n : ℕ) × (w : W) × ((net.malloc n w).0 ≡ false)

  -- The call returns with one of the receipts, or the length is out of range.
  abbrev pub Receives : Type 0 → ℤ → List ℕ → ℕ → Attempt (Delivery W) → Type 0
  Receives late fd before p o =
      ((d : Delivery W) × (o ≡ done d)
        × Receipt (Breaks net fd) Denies late before d.ret d.out d.outlen (incoming fd d.world)
        × (interrupts d.world ≤ p))
      ⊎ ((o ≡ undefined) × Wild before)

  Receives-weaken :
      (late : Type 0) (fd : ℤ) (before : List ℕ) (p q : ℕ) (o : Attempt (Delivery W))
      → p ≤ q
      → Receives late fd before p o
      → Receives late fd before q o
  Receives-weaken late fd before p q o le (inl (d, e, r, l)) = inl (d, e, r, omega arith)
  Receives-weaken late fd before p q o le (inr wild) = inr wild

  body_read-Receives :
      (late : Type 0) (fd : ℤ) (head mid : List ℕ) (n p : ℕ) (ret : ℤ) (buf : List ℕ) (w : W)
      → length head ≡ 4
      → All IsByte head
      → from_bytes 0 head ≡ n
      → n < 2 ^ 31 - 1
      → interrupts w ≤ p
      → ReadEnd (Breaks net fd) n mid ret buf (incoming fd w)
      → Receives late fd (head ++ mid) p (body_read n (record { ret = ret; buf = buf; world = w }))
  unfolding body_read frame
  body_read-Receives late fd head mid n p ret buf w l bytes is small le (whole e full same) =
      let head_is : htonl_bytes (length buf) ≡ head =
        ap htonl_bytes (full ∙ sym is) ∙ htonl_bytes-from_bytes head l bytes in
      let front : head ++ mid ≡ frame buf ++ incoming fd w =
        ap (λ t. head ++ t) same
        ∙ sym (append_assoc head buf (incoming fd w))
        ∙ ap (λ t. (t ++ buf) ++ incoming fd w) (sym head_is) in
      let out : Delivery W = record {
        ret = pos 0;
        out = some (buf ++ 0 ∷ []);
        outlen = pos n;
        world = w;
      } in
      rw e (
        inl (
          out,
          ground arith,
          message buf refl refl (ap pos (sym full)) front (omega (arith, full)),
          le,
        ))
  body_read-Receives late fd head mid n p ret buf w l bytes is small le (short e less all empty) =
      let out : Delivery W = record {
        ret = sck_err_peer_closed;
        out = none;
        outlen = pos 0;
        world = w;
      } in
      rw e (
        inl (
          out,
          ground arith,
          closed refl refl (Cut-body head mid n l is (omega (arith, less, ap length all))) empty,
          le,
        ))
  body_read-Receives late fd head mid n p ret buf w l bytes is small le (broken e less front why) =
      let out : Delivery W = record { ret = negsuc 0; out = none; outlen = pos 0; world = w } in
      rw e (inl (out, refl, failed refl refl why, le))

  astray-Receives :
      (late : Type 0) (fd : ℤ) (before mid : List ℕ) (n p : ℕ) (ret : ℤ) (buf : List ℕ) (w : W)
      → Wild before
      → interrupts w ≤ p
      → ReadEnd (Breaks net fd) n mid ret buf (incoming fd w)
      → Receives late fd before p (astray (record { ret = ret; buf = buf; world = w }))
  unfolding astray
  astray-Receives late fd before mid n p ret buf w wild le (whole e full same) =
      rw e (inr (ground arith, wild))
  astray-Receives late fd before mid n p ret buf w wild le (short e less all empty) =
      rw e (inr (ground arith, wild))
  astray-Receives late fd before mid n p ret buf w wild le (broken e less front why) =
      let out : Delivery W = record { ret = negsuc 0; out = none; outlen = pos 0; world = w } in
      rw e (inl (out, refl, failed refl refl why, le))

  module _ (h : IsStream net incoming interrupts) where
    read_body-Receives :
        (late : Type 0) (fuel : ℕ) (fd : ℤ) (head : List ℕ) (z : ℤ) (w : W)
        → length (incoming fd w) + interrupts w < fuel
        → length head ≡ 4
        → All IsByte head
        → ntohl_int head ≡ z
        → Receives late fd (head ++ incoming fd w) (interrupts w) (read_body net fuel fd z w)
    unfolding read_body
    read_body-Receives late fuel fd head (pos n) w enough l bytes e =
        let m = net.malloc (n + 1) w in
        let (is, small) = ntohl_int-pos head n e in
        let same = h.malloc_stream (n + 1) fd w in
        let fewer = h.malloc_interrupts (n + 1) w in
        elim (Bool-cases (n == 2 ^ 31 - 1)) [
          | inl largest ↦ rw largest (inr (refl, (head, incoming fd w, refl, l, ground arith)))
          | inr usual ↦ elim (Bool-cases m.0) [
            | inr none_left ↦
                let out : Delivery W = record {
                  ret = sck_err_malloc;
                  out = none;
                  outlen = pos 0;
                  world = m.1;
                } in
                rw (usual, none_left)
                  (inl (out, refl, denied refl refl (n + 1, w, none_left), fewer))
            | inl room ↦
                let r =
                  readn-Ends net incoming interrupts h fuel fd n m.1
                    (omega (arith, ap length same, fewer)) small in
                let end =
                  subst
                    (λ t.
                      ReadEnd (Breaks net fd) n t r.reading.ret r.reading.buf
                        (incoming fd r.reading.world))
                    same r.how in
                rw (usual, room, r.ends)
                  (body_read-Receives late fd head (incoming fd w) n (interrupts w) r.reading.ret
                    r.reading.buf r.reading.world l bytes is (below_largest n small usual)
                    (omega (arith, r.patience, fewer)) end)
          ]
        ]
    read_body-Receives late fuel fd head (negsuc k) w enough l bytes e =
        let size = (2 ^ 64 - k) % 2 ^ 64 in
        let m = net.malloc size w in
        let same = h.malloc_stream size fd w in
        let fewer = h.malloc_interrupts size w in
        let wild : Wild (head ++ incoming fd w) =
          (head, incoming fd w, refl, l, omega (arith, ntohl_int-negsuc head k e)) in
        elim (Bool-cases m.0) [
          | inr none_left ↦
              let out : Delivery W = record {
                ret = sck_err_malloc;
                out = none;
                outlen = pos 0;
                world = m.1;
              } in
              rw none_left (inl (out, refl, denied refl refl (size, w, none_left), fewer))
          | inl room ↦ elim (Bool-cases (k == 0)) [
            | inl least ↦ rw (room, least) (inr (refl, wild))
            | inr less ↦
                let r =
                  read_all-Ends net incoming interrupts h fuel fd (2 ^ 64 - 1 - k) m.1
                    (omega (arith, ap length same, fewer)) in
                rw (room, less, r.ends)
                  (astray-Receives late fd (head ++ incoming fd w) (incoming fd m.1)
                    (2 ^ 64 - 1 - k) (interrupts w) r.reading.ret r.reading.buf r.reading.world wild
                    (omega (arith, r.patience, fewer)) r.how)
          ]
        ]

    -- The four bytes of the length, as they came.
    length_read-Receives :
        (late : Type 0) (fuel : ℕ) (fd : ℤ) (before : List ℕ) (p : ℕ) (ret : ℤ) (buf : List ℕ)
        (w : W)
        → length (incoming fd w) + interrupts w < fuel
        → All IsByte before
        → interrupts w ≤ p
        → ReadEnd (Breaks net fd) 4 before ret buf (incoming fd w)
        → Receives late fd before p
            (length_read net fuel fd (record { ret = ret; buf = buf; world = w }))
    unfolding length_read
    length_read-Receives late fuel fd before p ret buf w enough bytes le (whole e full same) =
        rw (e, same)
          (Receives-weaken late fd (buf ++ incoming fd w) (interrupts w) p
            (read_body net fuel fd (ntohl_int buf) w) le
            (read_body-Receives late fuel fd buf (ntohl_int buf) w enough full
              (All-append_left buf (incoming fd w) (subst (All IsByte) same bytes)) refl))
    length_read-Receives late fuel fd before p ret buf w enough bytes le (short e less all empty) =
        let out : Delivery W = record {
          ret = sck_err_peer_closed;
          out = none;
          outlen = pos 0;
          world = w;
        } in
        rw e (
          inl (
            out,
            ground arith,
            closed refl refl (Cut-length before (omega (arith, less, ap length all))) empty,
            le,
          ))
    length_read-Receives late fuel fd before p ret buf w enough bytes le (broken e less front why) =
        let out : Delivery W = record { ret = negsuc 0; out = none; outlen = pos 0; world = w } in
        rw e (inl (out, refl, failed refl refl why, le))

    judge-keeps :
        (fd : ℤ) (a : Answer W)
        → (incoming fd (judge net a).world ≡ incoming fd a.world)
          × (interrupts (judge net a).world ≤ interrupts a.world)
    unfolding judge
    judge-keeps fd a =
        ground
          (arith, h.errno_stream net.etimedout fd a.world, h.errno_interrupts net.etimedout a.world)

    select_wait-Ends :
        (fuel : ℕ) (fd : ℤ) (secs : ℕ) (w : W)
        → interrupts w < fuel
        → (a : Answer W) × (select_wait net fuel (net.select_read fd secs) w ≡ done a)
          × (incoming fd a.world ≡ incoming fd w)
          × (interrupts a.world ≤ interrupts w)
    unfolding select_wait
    select_wait-Ends zero fd secs w enough = absurd (omega arith)
    select_wait-Ends (suc fuel) fd secs w enough =
        let r = net.select_read fd secs w in
        let (le, less) = h.select_interrupts fd secs w in
        let same = h.select_stream fd secs fd w in
        elim (Bool-cases (ltb_ℤ r.0 (pos 0) && interrupted net r.1)) [
          | inr off ↦ rw off (record { ret = r.0; world = r.1 }, refl, same, le)
          | inl on ↦
              let (a, e, s, l) =
                select_wait-Ends fuel fd secs r.1
                  (omega (arith, less (both_true on).0 (both_true on).1)) in
              rw on (a, e, s ∙ same, omega (arith, l, le))
        ]

    read_timeout-Ends :
        (fuel : ℕ) (fd : ℤ) (secs : ℕ) (w : W)
        → interrupts w < fuel
        → (a : Answer W) × (read_timeout net fuel fd secs w ≡ done a)
          × (incoming fd a.world ≡ incoming fd w)
          × (interrupts a.world ≤ interrupts w)
    unfolding read_timeout
    read_timeout-Ends fuel fd secs w enough = elim (Bool-cases (ltb 0 secs)) [
      | inr off ↦ rw off (record { ret = pos 0; world = w }, refl, refl, omega arith)
      | inl on ↦
          let (a, e, s, l) = select_wait-Ends fuel fd secs w enough in
          let (same, le) = judge-keeps fd a in
          rw (on, e) (judge net a, refl, same ∙ s, omega (arith, le, l))
    ]

    after_wait-Receives :
        (late : Type 0) (fuel : ℕ) (fd : ℤ) (a : Answer W)
        → length (incoming fd a.world) + interrupts a.world < fuel
        → All IsByte (incoming fd a.world)
        → (eqb_ℤ a.ret (pos 0) ≡ false → late)
        → Receives late fd (incoming fd a.world) (interrupts a.world) (after_wait net fuel fd a)
    unfolding after_wait
    after_wait-Receives late fuel fd a enough bytes why = elim (Bool-cases (eqb_ℤ a.ret (pos 0))) [
      | inl ready ↦
          let r = readn-Ends net incoming interrupts h fuel fd 4 a.world enough (omega arith) in
          rw (ready, r.ends)
            (length_read-Receives late fuel fd (incoming fd a.world) (interrupts a.world)
              r.reading.ret r.reading.buf r.reading.world
              (omega (arith, r.patience, ReadEnd-le r.how)) bytes r.patience r.how)
      | inr off ↦ elim (Bool-cases (eqb_ℤ a.ret (negsuc 0) || timed_out net a.world)) [
        | inl late ↦
            let out : Delivery W = record {
              ret = sck_err_time_out;
              out = none;
              outlen = pos 0;
              world = a.world;
            } in
            rw (off, late) (inl (out, refl, unready (λ e. cc) refl refl (why off), omega arith))
        | inr other ↦
            let out : Delivery W = record {
              ret = a.ret;
              out = none;
              outlen = pos 0;
              world = a.world;
            } in
            rw (off, other)
              (inl (out, refl, unready (eqb_zero a.ret off) refl refl (why off), omega arith))
      ]
    ]

    -- Whatever stands in the stream, in whatever pieces it arrives, sckClient_rev returns, with
    -- fuel for the bytes and the interruptions to come. It returns the message whose frame
    -- stands at the front, and just that frame is gone; or that the peer has closed, and then no
    -- whole message was there and the stream is at its end; or -1, and a call of recv failed; or
    -- that malloc failed; or that the wait did, and nothing was read. Only where the four bytes
    -- of the length stand for a negative number, or the largest int, can its behaviour be
    -- undefined.
    pub client_rev-Receives :
        (fuel : ℕ) (fd : ℤ) (revtime : ℕ) (w : W)
        → length (incoming fd w) + interrupts w < fuel
        → All IsByte (incoming fd w)
        → Receives
            (Late net fuel fd revtime w)
            fd
            (incoming fd w)
            (interrupts w)
            (client_rev net fuel fd revtime true w)
    unfolding client_rev
    client_rev-Receives fuel fd revtime w enough bytes =
        let (a, e, same, le) = read_timeout-Ends fuel fd revtime w (omega arith) in
        let late : Type 0 = Late net fuel fd revtime w in
        let whole_run =
          after_wait-Receives late fuel fd a (omega (arith, ap length same, le))
            (subst (All IsByte) (sym same) bytes) (λ off. (a, e, off)) in
        subst
          (λ o.
            Receives late fd (incoming fd w) (interrupts w) (o >>= λ b. after_wait net fuel fd b))
          (sym e)
          (Receives-weaken late fd (incoming fd w) (interrupts a.world) (interrupts w)
            (after_wait net fuel fd a) le
            (subst (λ l. Receives late fd l (interrupts a.world) (after_wait net fuel fd a)) same
              whole_run))
