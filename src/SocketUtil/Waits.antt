-- ===== src/SocketUtil/Waits.antt =====
-- tpc/poolsocket/socketutil.cpp: waiting for a descriptor, and blocking mode.
use exc.Common.{ℕ, zero, suc, true, false, ◌&&◌, if◌then◌else◌, ltb, ℤ, pos, negsuc, ltb_ℤ, eqb_ℤ}
use exc.SocketUtil.{Net, Attempt, done, stuck, ◌>>=◌, Answer, interrupted}

module _ {W : Type 0} (net : Net W) where
  -- The loop round select, which goes on while a signal interrupts it.
  unfoldable pub select_step : (W → Attempt (Answer W)) → ℤ → W → Attempt (Answer W)
  unfolding interrupted
  select_step again ret w =
      if ltb_ℤ ret (pos 0) && interrupted net w
      then again w
      else done (record { ret = ret; world = w })

  unfoldable pub select_wait : ℕ → (W → ℤ × W) → W → Attempt (Answer W)
  unfolding select_step
  select_wait zero select w = stuck
  select_wait (suc fuel) select w =
      let r = select w in select_step (select_wait fuel select) r.0 r.1

  -- What write_timeout and read_timeout make of it: no descriptor is -1 and ETIMEDOUT, one is 0.
  unfoldable pub judge : Answer W → Answer W
  judge a =
      if eqb_ℤ a.ret (pos 0)
      then record { ret = negsuc 0; world = net.set_errno net.etimedout a.world }
      else if eqb_ℤ a.ret (pos 1)
      then record { ret = pos 0; world = a.world }
      else a

  unfoldable pub write_timeout : ℕ → ℤ → ℕ → W → Attempt (Answer W)
  unfolding select_wait judge
  write_timeout fuel fd wait_seconds w =
      if ltb 0 wait_seconds
      then (select_wait fuel (net.select_write fd wait_seconds) w >>= λ a. done (judge a))
      else done (record { ret = pos 0; world = w })

  unfoldable pub read_timeout : ℕ → ℤ → ℕ → W → Attempt (Answer W)
  unfolding select_wait judge
  read_timeout fuel fd wait_seconds w =
      if ltb 0 wait_seconds
      then (select_wait fuel (net.select_read fd wait_seconds) w >>= λ a. done (judge a))
      else done (record { ret = pos 0; world = w })

  -- activate_nonblock and deactivate_nonblock
  unfoldable pub activate_nonblock : ℤ → W → Answer W
  activate_nonblock fd w =
      let r = net.set_nonblock fd true w in
      record { ret = if r.0 then negsuc 0 else pos 0; world = r.1 }

  unfoldable pub deactivate_nonblock : ℤ → W → Answer W
  deactivate_nonblock fd w =
      let r = net.set_nonblock fd false w in
      record { ret = if r.0 then negsuc 0 else pos 0; world = r.1 }
