-- ===== src/SocketUtil/Whole.antt =====
-- readn, however the bytes arrive.
use exc.Common.{
  ℕ, zero, suc, ◌+◌, ◌-◌, ◌^◌, ◌≡◌, ◌≤◌, ◌<◌, refl, sym, ap, ◌∙◌, arith, subst, false, List, [],
  ◌∷◌, ◌++◌, length, length-append, append_empty, ℤ, pos, negsuc, Bool-cases, inl, inr,
}
use mathlib.Core.List.{append_assoc}
use exc.SocketUtil.{
  Net, Received, lost, arrived, interrupted, Attempt, done, as_int, ReadReply, read_step, read_left,
  readn,
}
use exc.SocketUtil.Stream.{Recv, IsStream, Breaks, ReadEnd, whole, short, broken}

-- A size that an int holds stays what it is.
pub as_int-small : (n : ℕ) → n < 2 ^ 31 → as_int (pos n) ≡ pos n
unfolding as_int
as_int-small n small = ground arith

-- So does what the loop of readn returns, where the count is such a size.
as_int-ReadEnd :
    {Broken : Type 0} {n : ℕ} {before : List ℕ} {ret : ℤ} {buf later : List ℕ}
    → ReadEnd Broken n before ret buf later
    → n < 2 ^ 31
    → as_int ret ≡ ret
unfolding as_int
as_int-ReadEnd {n} (whole e full same) small = rw e (as_int-small n small)
as_int-ReadEnd {buf} (short e less all empty) small = rw e (as_int-small (length buf) (omega arith))
as_int-ReadEnd (broken e less front why) small = rw e refl

-- A run that ends in this way also ends so for another count, stream and number of interruptions.
module _ {W : Type 0} (net : Net W) (incoming : ℤ → W → List ℕ) (interrupts : W → ℕ) where
  -- The loop ends, and how.
  pub record Ends (fd : ℤ) (n : ℕ) (before : List ℕ) (p : ℕ) (o : Attempt (ReadReply W))
      : Type 0 where
    pub reading : ReadReply W
    pub ends : o ≡ done reading
    pub how : ReadEnd (Breaks net fd) n before reading.ret reading.buf (incoming fd reading.world)
    pub patience : interrupts reading.world ≤ p

  Ends-weaken :
      (fd : ℤ) (n m : ℕ) (b c : List ℕ) (p q : ℕ) (o : Attempt (ReadReply W))
      → n ≡ m
      → b ≡ c
      → p ≤ q
      → Ends fd n b p o
      → Ends fd m c q o
  Ends-weaken fd n m b c p q o en eb le e =
      subst (λ k. Ends fd k c q o) en
        (subst (λ l. Ends fd n l q o) eb
          (record {
            reading = e.reading;
            ends = e.ends;
            how = e.how;
            patience = omega (arith, e.patience);
          }))

  -- One round, with the loop behind it.
  read_step-Ends :
      (again : ℕ → List ℕ → W → Attempt (ReadReply W)) (fd : ℤ) (n : ℕ) (acc before : List ℕ)
      (p : ℕ) (r : Received) (w : W)
      → Recv (suc n) r before (incoming fd w) p (interrupts w) (interrupted net w)
      → (r ≡ lost → interrupted net w ≡ false → Breaks net fd)
      → ((m : ℕ) (buf : List ℕ)
          → length (incoming fd w) + interrupts w < length before + p
          → Ends fd (length buf + m) (buf ++ incoming fd w) (interrupts w) (again m buf w))
      → Ends fd (length acc + suc n) (acc ++ before) p (read_step net again (suc n) acc r w)
  unfolding read_step
  read_step-Ends again fd n acc before p lost w (same, le, less) breaks ih =
      elim (Bool-cases (interrupted net w)) [
        | inl on ↦ rw on (
            Ends-weaken fd (length acc + suc n) (length acc + suc n) (acc ++ incoming fd w)
              (acc ++ before) (interrupts w) p (again (suc n) acc w) refl (ap (λ l. acc ++ l) same)
              le (ih (suc n) acc (omega (arith, ap length same, less on))))
        | inr off ↦ rw off (record {
          reading = record { ret = negsuc 0; buf = acc; world = w };
          ends = refl;
          how = broken refl (omega arith) (ap (λ l. acc ++ l) (sym same)) (breaks refl off);
          patience = le;
        })
      ]
  read_step-Ends again fd n acc before p (arrived []) w (same, fits, le, last) breaks ih =
      let empty : before ≡ [] = last refl in
      record {
        reading = record { ret = pos (length acc); buf = acc; world = w };
        ends = refl;
        how =
            short refl (omega arith) (sym (ap (λ l. acc ++ l) empty ∙ append_empty acc))
              (sym same ∙ empty);
        patience = le;
      }
  read_step-Ends again fd n acc before p (arrived (b ∷ bs)) w (same, fits, le, last) breaks ih =
      let got : List ℕ = b ∷ bs in
      let shorter = ap length same ∙ length-append got (incoming fd w) in
      Ends-weaken fd (length (acc ++ got) + (suc n - length got)) (length acc + suc n)
        ((acc ++ got) ++ incoming fd w) (acc ++ before) (interrupts w) p
        (again (suc n - length got) (acc ++ got) w) (omega (arith, length-append acc got))
        (append_assoc acc got (incoming fd w) ∙ ap (λ l. acc ++ l) (sym same)) le
        (ih (suc n - length got) (acc ++ got) (omega (arith, shorter)))

  module _ (h : IsStream net incoming interrupts) where
    read_left-Ends :
        (fuel : ℕ) (fd : ℤ) (n : ℕ) (acc : List ℕ) (w : W)
        → length (incoming fd w) + interrupts w < fuel
        → Ends fd
            (length acc + n)
            (acc ++ incoming fd w)
            (interrupts w)
            (read_left net fuel fd n acc w)
    unfolding read_left
    read_left-Ends fuel fd zero acc w enough = record {
      reading = record { ret = pos (length acc); buf = acc; world = w };
      ends = refl;
      how = whole (ap pos (omega arith)) (omega arith) refl;
      patience = omega arith;
    }
    read_left-Ends zero fd (suc n) acc w enough = absurd (omega arith)
    read_left-Ends (suc fuel) fd (suc n) acc w enough =
        let r = net.recv fd (suc n) w in
        read_step-Ends (read_left net fuel fd) fd n acc (incoming fd w) (interrupts w) r.0 r.1
          (h.recv_law fd n w) (λ l off. (suc n, w, l, off))
          (λ m buf less. read_left-Ends fuel fd m buf r.1 (omega arith))

    -- The loop of readn from its start, for any count.
    pub read_all-Ends :
        (fuel : ℕ) (fd : ℤ) (count : ℕ) (w : W)
        → length (incoming fd w) + interrupts w < fuel
        → Ends fd count (incoming fd w) (interrupts w) (read_left net fuel fd count [] w)
    read_all-Ends fuel fd count w enough =
        Ends-weaken fd (0 + count) count ([] ++ incoming fd w) (incoming fd w) (interrupts w)
          (interrupts w) (read_left net fuel fd count [] w) (omega arith) refl (omega arith)
          (read_left-Ends fuel fd count [] w enough)

    -- readn of `count` bytes, a count that an int holds, with fuel for the bytes to come and the
    -- interruptions to come returns: with the next `count` bytes, in order and whatever pieces
    -- they arrive in; or with fewer, which are all that the peer sent, and nothing follows; or
    -- with -1, and then a call of recv failed for another reason than a signal. No byte is lost
    -- or read twice.
    pub readn-Ends :
        (fuel : ℕ) (fd : ℤ) (count : ℕ) (w : W)
        → length (incoming fd w) + interrupts w < fuel
        → count < 2 ^ 31
        → Ends fd count (incoming fd w) (interrupts w) (readn net fuel fd count w)
    unfolding readn
    readn-Ends fuel fd count w enough small =
        let e = read_all-Ends fuel fd count w enough in
        let same = as_int-ReadEnd e.how small in
        rw e.ends (record {
          reading = record {
            ret = as_int e.reading.ret;
            buf = e.reading.buf;
            world = e.reading.world;
          };
          ends = refl;
          how =
              subst
                (λ z.
                  ReadEnd (Breaks net fd) count (incoming fd w) z e.reading.buf
                    (incoming fd e.reading.world))
                (sym same) e.how;
          patience = e.patience;
        })
