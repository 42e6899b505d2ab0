-- ===== src/SocketUtil/Accepting.antt =====
-- sckServer_accept where the wait has found a connection, or there is none.
use exc.Common.{
  ℕ, ◌≡◌, ◌≢◌, ◌⊎◌, ap, arith, true, if◌then◌else◌, ltb, some, ℤ, pos, negsuc, eqb_ℤ, inl, inr,
}
use exc.SocketUtil.{Net, done}
use exc.SocketUtil.Waits.{select_wait}
use exc.SocketUtil.Sessions.{
  Opened, accept_now, accept_ready, accept_timeout, accepted, server_accept,
}

module _ {W : Type 0} (net : Net W) where
  -- The answer of sckServer_accept on a call of accept.
  abbrev pub takes : ℤ × W → Opened W
  takes r = record {
    ret = pos 0;
    descriptor = some (if eqb_ℤ r.0 (negsuc 0) then net.errno r.1 else r.0);
    world = r.1;
  }

  -- accept gives a descriptor, or -1 with an errno that is not negative.
  abbrev pub IsAccept : ℤ × W → Type 0
  IsAccept r = ((n : ℕ) × (r.0 ≡ pos n)) ⊎ ((r.0 ≡ negsuc 0) × ((e : ℕ) × (net.errno r.1 ≡ pos e)))

  accepted-now :
      (fd : ℤ) (w : W)
      → IsAccept (net.accept fd w)
      → accepted net (accept_now net fd w) ≡ takes (net.accept fd w)
  unfolding accepted accept_now
  accepted-now fd w (inl (n, e)) = ground arith
  accepted-now fd w (inr (e, (k, f))) = ground arith

  -- With no time given, or one in which select finds the socket ready, sckServer_accept returns 0
  -- whatever accept does: where accept fails, errno is handed out as the connection.
  pub server_accept-takes :
      (fuel : ℕ) (fd : ℤ) (secs : ℕ) (w v : W)
      → ((secs ≡ 0) × (v ≡ w))
        ⊎ ((secs ≢ 0)
            × (select_wait net fuel (net.select_read fd secs) w
                ≡ done (record { ret = pos 1; world = v })))
      → IsAccept (net.accept fd v)
      → server_accept net fuel fd secs w ≡ done (takes (net.accept fd v))
  unfolding server_accept accept_timeout accept_ready
  server_accept-takes fuel fd secs w v (inl (none_given, same)) law =
      rw (none_given, ← same) (ap done (accepted-now fd v law))
  server_accept-takes fuel fd secs w v (inr (given, ready)) law =
      let timed : ltb 0 secs ≡ true = ground arith in
      rw (timed, ready) (ap done (accepted-now fd v law))
