-- ===== src/SocketUtil/Sessions.antt =====
-- tpc/poolsocket/socketutil.cpp: connecting, listening and accepting.
use exc.Common.{
  ℕ, Bool, ◌&&◌, ◌||◌, not, if◌then◌else◌, ltb, Option, none, some, ℤ, pos, negsuc, ltb_ℤ, eqb_ℤ,
}
use exc.SocketUtil.{Net, Attempt, done, ◌>>=◌, Answer, timed_out}
use exc.SocketUtil.Waits.{select_wait, activate_nonblock, deactivate_nonblock}
use exc.SocketUtil.Frames.{sck_err_time_out}

-- What a call returns, and what it stores through its pointer, if anything.
pub record Opened (W : Type 0) : Type 0 where
  pub ret : ℤ
  pub descriptor : Option ℤ
  pub world : W

module _ {W : Type 0} (net : Net W) where
  -- What getsockopt says of a connection that can be written: none is that the call failed, and
  -- then connect_timeout returns at once.
  unfoldable pub finish_connect : Bool → ℤ → Option ℤ → W → Answer W
  unfolding deactivate_nonblock
  finish_connect timed fd none w = record { ret = negsuc 0; world = w }
  finish_connect timed fd (some e) w =
      let judged = if eqb_ℤ e (pos 0) then w else net.set_errno e w in
      record {
        ret = if eqb_ℤ e (pos 0) then pos 0 else negsuc 0;
        world = if timed then (deactivate_nonblock net fd judged).world else judged;
      }

  -- Behind the wait of connect_timeout; where select fails it returns at once.
  unfoldable pub connected : Bool → ℤ → Answer W → Answer W
  unfolding finish_connect deactivate_nonblock
  connected timed fd a =
      let late = net.set_errno net.etimedout a.world in
      let s = net.socket_error fd a.world in
      if eqb_ℤ a.ret (pos 0)
      then record {
        ret = negsuc 0;
        world = if timed then (deactivate_nonblock net fd late).world else late;
      }
      else if ltb_ℤ a.ret (pos 0)
      then record { ret = negsuc 0; world = a.world }
      else if eqb_ℤ a.ret (pos 1)
      then finish_connect timed fd s.0 s.1
      else record {
        ret = a.ret;
        world = if timed then (deactivate_nonblock net fd a.world).world else a.world;
      }

  -- connect_timeout
  unfoldable pub connect_timeout : ℕ → ℤ → ℕ → W → Attempt (Answer W)
  unfolding activate_nonblock deactivate_nonblock select_wait connected
  connect_timeout fuel fd wait_seconds w =
      let timed = ltb 0 wait_seconds in
      let start = if timed then (activate_nonblock net fd w).world else w in
      let c = net.connect fd start in
      if ltb_ℤ c.0 (pos 0) && (eqb_ℤ (net.errno c.1) net.einprogress || net.would_block c.1)
      then (select_wait net fuel (net.select_write fd wait_seconds) c.1 >>= λ a.
          done (connected timed fd a))
      else done (record {
        ret = c.0;
        world = if timed then (deactivate_nonblock net fd c.1).world else c.1;
      })

  -- sckClient_init
  unfoldable pub client_init : W → Answer W
  client_init w = let s = net.startup w in record { ret = s.0; world = s.1 }

  -- One step of sckServer_init failed: the socket stays open.
  abbrev pub given_up : W → Opened W
  given_up w = record { ret = net.errno w; descriptor = none; world = net.cleanup w }

  -- sckServer_init
  unfoldable pub server_init : ℤ → W → Opened W
  server_init port w =
      let s = net.startup w in
      let m = net.socket s.1 in
      let o = net.reuse_address m.0 m.1 in
      let b = net.bind m.0 port o.1 in
      let l = net.listen m.0 b.1 in
      if not (eqb_ℤ s.0 (pos 0))
      then record { ret = s.0; descriptor = none; world = s.1 }
      else if ltb_ℤ m.0 (pos 0)
      then given_up m.1
      else if ltb_ℤ o.0 (pos 0)
      then given_up o.1
      else if ltb_ℤ b.0 (pos 0)
      then given_up b.1
      else if ltb_ℤ l.0 (pos 0)
      then given_up l.1
      else record { ret = pos 0; descriptor = some m.0; world = l.1 }

  -- The call of accept: where it fails, errno is returned.
  unfoldable pub accept_now : ℤ → W → Answer W
  accept_now fd w =
      let r = net.accept fd w in
      record { ret = if eqb_ℤ r.0 (negsuc 0) then net.errno r.1 else r.0; world = r.1 }

  -- Behind the wait of accept_timeout.
  unfoldable pub accept_ready : ℤ → Answer W → Answer W
  unfolding accept_now
  accept_ready fd a =
      if eqb_ℤ a.ret (negsuc 0)
      then a
      else if eqb_ℤ a.ret (pos 0)
      then record { ret = negsuc 0; world = net.set_errno net.etimedout a.world }
      else accept_now fd a.world

  -- accept_timeout
  unfoldable pub accept_timeout : ℕ → ℤ → ℕ → W → Attempt (Answer W)
  unfolding select_wait accept_ready
  accept_timeout fuel fd wait_seconds w =
      if ltb 0 wait_seconds
      then (select_wait net fuel (net.select_read fd wait_seconds) w >>= λ a.
          done (accept_ready fd a))
      else done (accept_now fd w)

  -- What sckServer_accept makes of it.
  unfoldable pub accepted : Answer W → Opened W
  unfolding timed_out
  accepted a =
      if ltb_ℤ a.ret (pos 0)
      then record {
        ret =
            if eqb_ℤ a.ret (negsuc 0) && timed_out net a.world
            then sck_err_time_out
            else net.errno a.world;
        descriptor = none;
        world = a.world;
      }
      else record { ret = pos 0; descriptor = some a.ret; world = a.world }

  -- sckServer_accept
  unfoldable pub server_accept : ℕ → ℤ → ℕ → W → Attempt (Opened W)
  unfolding accept_timeout accepted
  server_accept fuel listenfd timeout w =
      accept_timeout fuel listenfd timeout w >>= λ a. done (accepted a)

  -- sckServer_close
  unfoldable pub server_close : ℤ → W → Answer W
  server_close fd w = record { ret = pos 0; world = net.close_socket fd w }

  -- sckServer_destroy
  unfoldable pub server_destroy : W → Answer W
  server_destroy w = record { ret = pos 0; world = w }
