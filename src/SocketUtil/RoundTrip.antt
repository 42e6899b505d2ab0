-- ===== src/SocketUtil/RoundTrip.antt =====
-- From the messages that one side sends to those that the other receives.
use exc.Common.{
  ℕ, ◌+◌, ◌-◌, ◌^◌, ◌≡◌, ◌≤◌, ◌<◌, refl, sym, ap, ◌∙◌, arith, subst, true, List, [], ◌∷◌, ◌++◌,
  some, length, length-append, append_empty, All, ℤ, pos, inl, inr, pos_part,
}
use mathlib.Core.List.{append_assoc}
use exc.SocketUtil.{Net, Attempt, done, Answer}
use exc.SocketUtil.Frames.{
  Delivery, frame, htonl_bytes, from_bytes, client_send, client_rev, server_rev,
}
use exc.SocketUtil.Stream.{IsStream, Breaks}
use exc.SocketUtil.Receive.{
  message, closed, failed, denied, unready, Wild, Late, Denies, Receives, client_rev-Receives,
}
use exc.SocketUtil.Sending.{IsOutlet, Sent, sent, part, refused, Idles, client_send-Sends}
use exc.SocketUtil.Lengths.{IsByte, frame_inj, frame_front, from_bytes-htonl_bytes}

-- What a message may be: not empty, bytes, and its frame fits an int.
abbrev pub IsMessage : List ℕ → Type 0
IsMessage body = All IsByte body × (0 < length body) × (length body ≤ 2 ^ 31 - 5)

abbrev pub frames : List (List ℕ) → List ℕ
frames [] = []
frames (body ∷ bodies) = frame body ++ frames bodies

-- The stream with a frame in front declares the length of its body.
Wild-frame : (body rest : List ℕ) → length body < 2 ^ 31 - 1 → Wild (frame body ++ rest) → ⊥
Wild-frame body rest small (head, more, e, l, big) =
    let (heads, bodies) = frame_front head more body rest l (sym e) in
    omega (arith, ap (from_bytes 0) heads, from_bytes-htonl_bytes (length body))

module _ {W : Type 0} (net : Net W) (incoming : ℤ → W → List ℕ) (interrupts : W → ℕ)
    (h : IsStream net incoming interrupts) where
  -- A message is received: 0 is returned, its bytes and a zero behind them are handed out with its
  -- length, and the stream goes on behind its frame.
  abbrev pub Gets : ℤ → List ℕ → List ℕ → ℕ → Attempt (Delivery W) → Type 0
  Gets fd body rest p o =
      (d : Delivery W) × (o ≡ done d)
      × (d.ret ≡ pos 0)
      × (d.out ≡ some (body ++ 0 ∷ []))
      × (d.outlen ≡ pos (length body))
      × (incoming fd d.world ≡ rest)
      × (interrupts d.world ≤ p)

  Receives-frame :
      (late : Type 0) (fd : ℤ) (body rest : List ℕ) (p : ℕ) (o : Attempt (Delivery W))
      → ¬ Breaks net fd
      → ¬ Denies net incoming interrupts
      → ¬ late
      → length body < 2 ^ 31 - 1
      → Receives net incoming interrupts late fd (frame body ++ rest) p o
      → Gets fd body rest p o
  Receives-frame late fd body rest p o sound room early small (inr (e, wild)) =
      absurd (Wild-frame body rest small wild)
  Receives-frame late fd body rest p o sound room early small (inl (d, e, r, le)) = elim r [
    | message body' zero_ret out len front small' ↦
        let (bodies, rests) =
          frame_inj body rest body' (incoming fd d.world) (omega (arith, small))
            (omega (arith, small')) front in
        (
          d,
          e,
          zero_ret,
          out ∙ ap (λ b. some (b ++ 0 ∷ [])) (sym bodies),
          len ∙ ap (λ b. pos (length b)) (sym bodies),
          sym rests,
          le,
        )
    | closed q out cut later ↦ absurd (cut body rest refl)
    | failed q out why ↦ absurd (sound why)
    | denied q out why ↦ absurd (room why)
    | unready q out same why ↦ absurd (early why)
  ]

-- One side sends the messages one after the other, with fuel for the interruptions to come, and each
-- call returns 0.
abbrev pub Tells : {W : Type 0} → Net W → (W → ℕ) → ℤ → ℕ → List (List ℕ) → W → W → Type 0
Tells net waits fd secs [] w end = w ≡ end
Tells {W} net waits fd secs (body ∷ bodies) w end =
    (fuel : ℕ) × (a : Answer W) × (waits w < fuel)
    × (client_send net fuel fd secs (some body) w ≡ done a)
    × (a.ret ≡ pos 0)
    × Tells net waits fd secs bodies a.world end

-- The other receives them, and no other, and each call returns 0.
abbrev pub Hears : {W : Type 0} → Net W → ℕ → ℤ → ℕ → List (List ℕ) → W → W → Type 0
Hears net fuel fd secs [] w end = w ≡ end
Hears {W} net fuel fd secs (body ∷ bodies) w end =
    (d : Delivery W) × (server_rev net fuel fd secs true w ≡ done d)
    × (d.ret ≡ pos 0)
    × (d.out ≡ some (body ++ 0 ∷ []))
    × (d.outlen ≡ pos (length body))
    × Hears net fuel fd secs bodies d.world end

done_inj {ℓ} : {A : Type ℓ} {a b : A} → done a ≡ done b → a ≡ b
done_inj e = cc

module _ {W : Type 0} (net : Net W) (outgoing : ℤ → W → List ℕ) (interrupts : W → ℕ)
    (h : IsOutlet net outgoing interrupts) where
  zero-Sent :
      (bs before later : List ℕ) (ret : ℤ)
      → ¬ Idles net outgoing interrupts
      → ret ≡ pos 0
      → Sent (Idles net outgoing interrupts) bs before ret later
      → later ≡ before ++ frame bs
  zero-Sent bs before later ret busy e (sent zero_ret taken) = taken
  zero-Sent bs before later ret busy e (part front back size more idle cut taken) =
      absurd (busy (idle (omega (arith, ap pos_part (sym size ∙ e)))))
  zero-Sent bs before later ret busy e (refused other same) = absurd (other e)

  Tells-frames :
      (fd : ℤ) (secs : ℕ) (bodies : List (List ℕ)) (w end : W)
      → ¬ Idles net outgoing interrupts
      → All IsMessage bodies
      → Tells net interrupts fd secs bodies w end
      → outgoing fd end ≡ outgoing fd w ++ frames bodies
  Tells-frames fd secs [] w end busy m e =
      ap (outgoing fd) (sym e) ∙ sym (append_empty (outgoing fd w))
  Tells-frames fd secs ([] ∷ bodies) w end busy ((bytes, some_left, fits), ms) t =
      absurd (omega arith)
  Tells-frames fd secs ((b ∷ bs) ∷ bodies) w end busy ((bytes, some_left, fits), ms)
        (fuel, a, enough, e, zero_ret, t) =
      let ((a', e', s), other) =
        client_send-Sends net outgoing interrupts h fuel fd secs b bs w enough fits in
      let is : a' ≡ a = done_inj (sym e' ∙ e) in
      let taken = zero-Sent (b ∷ bs) (outgoing fd w) (outgoing fd a.world) a.ret busy zero_ret (
        subst
          (λ x.
            Sent (Idles net outgoing interrupts) (b ∷ bs) (outgoing fd w) x.ret
              (outgoing fd x.world))
          is s) in
      Tells-frames fd secs bodies a.world end busy ms t
      ∙ ap (λ l. l ++ frames bodies) taken
      ∙ append_assoc (outgoing fd w) (frame (b ∷ bs)) (frames bodies)

All-append : (xs ys : List ℕ) → All IsByte xs → All IsByte ys → All IsByte (xs ++ ys)
All-append [] ys hx hy = hy
All-append (x ∷ xs) ys (b, hx) hy = (b, All-append xs ys hx hy)

frame-IsByte : (body : List ℕ) → All IsByte body → All IsByte (frame body)
unfolding frame htonl_bytes
frame-IsByte body bytes =
    let n = length body in (omega arith, (omega arith, (omega arith, (omega arith, bytes))))

frames-IsByte : (bodies : List (List ℕ)) → All IsMessage bodies → All IsByte (frames bodies)
frames-IsByte [] ms = tt
frames-IsByte (body ∷ bodies) ((bytes, some_left, fits), ms) =
    All-append (frame body) (frames bodies) (frame-IsByte body bytes) (frames-IsByte bodies ms)

module _ {V : Type 0} (net : Net V) (incoming : ℤ → V → List ℕ) (interrupts : V → ℕ)
    (h : IsStream net incoming interrupts) where
  frames-Hears :
      (fuel : ℕ) (fd : ℤ) (secs : ℕ) (bodies : List (List ℕ)) (v : V)
      → ¬ Breaks net fd
      → ¬ Denies net incoming interrupts
      → ((u : V) → ¬ Late net fuel fd secs u)
      → All IsMessage bodies
      → incoming fd v ≡ frames bodies
      → length (incoming fd v) + interrupts v < fuel
      → (end : V) × Hears net fuel fd secs bodies v end × (incoming fd end ≡ [])
  unfolding server_rev
  frames-Hears fuel fd secs [] v sound room ready ms e enough = (v, refl, e)
  frames-Hears fuel fd secs (body ∷ bodies) v sound room ready ((bytes, some_left, fits), ms) e
        enough =
      let all = client_rev-Receives net incoming interrupts h fuel fd secs v enough (
        subst (All IsByte) (sym e)
          (frames-IsByte (body ∷ bodies) ((bytes, some_left, fits), ms))) in
      let (d, is, zero_ret, out, len, rest, le) =
        Receives-frame net incoming interrupts h (Late net fuel fd secs v) fd body (frames bodies)
          (interrupts v) (client_rev net fuel fd secs true v) sound room (ready v)
          (omega (arith, fits))
          (subst
            (λ l.
              Receives net incoming interrupts (Late net fuel fd secs v) fd l (interrupts v)
                (client_rev net fuel fd secs true v))
            e all) in
      let (end, heard, empty) = frames-Hears fuel fd secs bodies d.world sound room ready ms rest (
        omega
          (arith, ap length e, ap length rest, length-append (frame body) (frames bodies), le)) in
      (end, (d, is, zero_ret, out, len, heard), empty)

-- A sender on one system, and a receiver on another that gets the bytes which the first has taken.
module _ {W V : Type 0} (sender : Net W) (outgoing : ℤ → W → List ℕ) (waits : W → ℕ)
    (hs : IsOutlet sender outgoing waits) (receiver : Net V) (incoming : ℤ → V → List ℕ)
    (interrupts : V → ℕ) (hr : IsStream receiver incoming interrupts) where
  -- The client sends messages, each not empty, of bytes and of at most 2^31 - 5 of them, and each
  -- call of sckClient_send returns 0. What the network has taken is what the server gets, in pieces
  -- of any size and with interruptions. Then sckServer_rev, called once for each, returns 0 and hands
  -- out these messages, in order and with their lengths, and nothing is left in the stream. The
  -- server's calls of recv fail only when interrupted, its malloc gives blocks, its waits find
  -- something to read, and the client's send takes a byte or fails.
  pub Hears-Tells :
      (fuel : ℕ) (fd fd' : ℤ) (secs secs' : ℕ) (bodies : List (List ℕ)) (w w' : W) (v : V)
      → ¬ Idles sender outgoing waits
      → ¬ Breaks receiver fd'
      → ¬ Denies receiver incoming interrupts
      → ((u : V) → ¬ Late receiver fuel fd' secs' u)
      → All IsMessage bodies
      → outgoing fd w ≡ []
      → Tells sender waits fd secs bodies w w'
      → incoming fd' v ≡ outgoing fd w'
      → length (incoming fd' v) + interrupts v < fuel
      → (end : V) × Hears receiver fuel fd' secs' bodies v end × (incoming fd' end ≡ [])
  Hears-Tells fuel fd fd' secs secs' bodies w w' v busy sound room ready ms fresh t same more =
      let taken = Tells-frames sender outgoing waits hs fd secs bodies w w' busy ms t in
      frames-Hears receiver incoming interrupts hr fuel fd' secs' bodies v sound room ready ms
        (same ∙ taken ∙ ap (λ l. l ++ frames bodies) fresh) more
