-- ===== src/SocketUtil/Stream.antt =====
-- What the functions of socketutil.cpp rely on in a connection: bytes arrive in order, in pieces of
-- any size, and signals interrupt a call only so many times more.
use exc.Common.{
  ℕ, suc, ◌≡◌, ◌≤◌, ◌<◌, Bool, true, false, List, [], ◌++◌, length, ltb_ℤ, ℤ, pos, negsuc,
}
use exc.SocketUtil.{Net, Received, lost, arrived, interrupted}

-- What stands before and after a call of recv for at most `n` bytes, with the interruptions to come:
-- no byte means that the peer has closed and none will come.
abbrev pub Recv : ℕ → Received → List ℕ → List ℕ → ℕ → ℕ → Bool → Type 0
Recv n lost before later p q signal = (later ≡ before) × (q ≤ p) × (signal ≡ true → q < p)
Recv n (arrived bs) before later p q signal =
    (before ≡ bs ++ later) × (length bs ≤ n) × (q ≤ p) × (bs ≡ [] → before ≡ [])

module _ {W : Type 0} (net : Net W) where
  -- `incoming fd w` is what the peer sends and the program has not read, until the peer closes;
  -- `interrupts w` is how often a signal will still interrupt a call.
  pub record IsStream (incoming : ℤ → W → List ℕ) (interrupts : W → ℕ) : Type 0 where
    pub recv_law :
        (fd : ℤ) (n : ℕ) (w : W)
        → let r = net.recv fd (suc n) w in
          Recv
            (suc n)
            r.0
            (incoming fd w)
            (incoming fd r.1)
            (interrupts w)
            (interrupts r.1)
            (interrupted net r.1)
    pub select_stream :
        (fd : ℤ) (n : ℕ) (c : ℤ) (w : W) → incoming c (net.select_read fd n w).1 ≡ incoming c w
    pub select_interrupts :
        (fd : ℤ) (n : ℕ) (w : W)
        → let r = net.select_read fd n w in
          (interrupts r.1 ≤ interrupts w)
          × (ltb_ℤ r.0 (pos 0) ≡ true → interrupted net r.1 ≡ true → interrupts r.1 < interrupts w)
    pub errno_stream : (e : ℤ) (c : ℤ) (w : W) → incoming c (net.set_errno e w) ≡ incoming c w
    pub errno_interrupts : (e : ℤ) (w : W) → interrupts (net.set_errno e w) ≤ interrupts w
    pub malloc_stream : (n : ℕ) (c : ℤ) (w : W) → incoming c (net.malloc n w).1 ≡ incoming c w
    pub malloc_interrupts : (n : ℕ) (w : W) → interrupts (net.malloc n w).1 ≤ interrupts w

  -- A call of recv failed, and not because of a signal.
  abbrev pub Breaks : ℤ → Type 0
  Breaks fd =
      (n : ℕ) × (w : W) × ((net.recv fd n w).0 ≡ lost)
      × (interrupted net (net.recv fd n w).1 ≡ false)

-- The ways in which a read of `n` bytes from a stream ends.
pub data ReadEnd (Broken : Type 0) (n : ℕ) (before : List ℕ) (ret : ℤ) (buf later : List ℕ)
    : Type 0 where
  whole :
      ret ≡ pos n → length buf ≡ n → before ≡ buf ++ later → ReadEnd Broken n before ret buf later
  short :
      ret ≡ pos (length buf)
      → length buf < n
      → buf ≡ before
      → later ≡ []
      → ReadEnd Broken n before ret buf later
  broken :
      ret ≡ negsuc 0
      → length buf < n
      → before ≡ buf ++ later
      → Broken
      → ReadEnd Broken n before ret buf later
