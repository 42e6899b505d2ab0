-- ===== src/SocketUtil.antt =====
-- tpc/poolsocket/socketutil.cpp: the calls of the system that its functions use, as parameters on a
-- state `W` of the system, and the loops that read and write a fixed number of bytes. A loop takes
-- fuel, and is `stuck` where that runs out.

pub mod Waits
pub mod Frames
pub mod Stream
pub mod Whole
pub mod Lengths
pub mod Receive
pub mod Sending
pub mod RoundTrip
pub mod Sessions
pub mod Blocks
pub mod Accepting
use exc.Common.{
  ℕ, zero, suc, ◌-◌, ◌%◌, ◌^◌, ◌≡◌, refl, Bool, true, false, if◌then◌else◌, ltb, ◌==◌, List, [],
  ◌∷◌, ◌++◌, Option, length, ℤ, pos, negsuc, ltb_ℤ, eqb_ℤ,
}

-- What a call of recv gives: a number below 0, or so many bytes at the front of the buffer, which
-- no call makes more than an int holds.
pub data Received : Type 0 where
  lost : Received
  arrived : List ℕ → Received

-- The calls of the system, with `errno` and the codes that it is compared to. `would_block` is
-- `WSAGetLastError() == WSAEWOULDBLOCK`; `select_read` and `select_write` wait for one descriptor;
-- `socket_error` is getsockopt with SO_ERROR; `set_nonblock` is ioctlsocket with FIONBIO, true where
-- it fails; malloc gives whether there is a block.
pub record Net (W : Type 0) : Type 0 where
  pub eintr : ℤ
  pub etimedout : ℤ
  pub einprogress : ℤ
  pub errno : W → ℤ
  pub set_errno : ℤ → W → W
  pub would_block : W → Bool
  pub recv : ℤ → ℕ → W → Received × W
  pub peek : ℤ → ℕ → W → Received × W
  pub send : ℤ → List ℕ → W → ℤ × W
  pub select_read : ℤ → ℕ → W → ℤ × W
  pub select_write : ℤ → ℕ → W → ℤ × W
  pub set_nonblock : ℤ → Bool → W → Bool × W
  pub connect : ℤ → W → ℤ × W
  pub socket_error : ℤ → W → Option ℤ × W
  pub accept : ℤ → W → ℤ × W
  pub startup : W → ℤ × W
  pub cleanup : W → W
  pub socket : W → ℤ × W
  pub reuse_address : ℤ → W → ℤ × W
  pub bind : ℤ → ℤ → W → ℤ × W
  pub listen : ℤ → W → ℤ × W
  pub close_socket : ℤ → W → W
  pub malloc : ℕ → W → Bool × W
  pub free : W → W

-- `stuck` is no outcome of the code: the fuel of the model ran out. `undefined` is undefined
-- behaviour, such as a write behind a block.
pub data Attempt {ℓ} (A : Type ℓ) : Type ℓ where
  done : A → Attempt A
  stuck : Attempt A
  undefined : Attempt A

infixl 5 ◌>>=◌
abbrev pub ◌>>=◌ {ℓ κ} : {A : Type ℓ} {B : Type κ} → Attempt A → (A → Attempt B) → Attempt B
done a >>= f = f a
stuck >>= f = stuck
undefined >>= f = undefined

-- What a call returns, and what it leaves.
pub record Answer (W : Type 0) : Type 0 where
  pub ret : ℤ
  pub world : W

-- The same for readn, with what is in the buffer.
pub record ReadReply (W : Type 0) : Type 0 where
  pub ret : ℤ
  pub buf : List ℕ
  pub world : W

-- A size_t where an int is returned: its lowest 32 bits, with a sign. A number below 0 stays.
unfoldable pub as_int : ℤ → ℤ
as_int (pos n) = let u = n % 2 ^ 32 in if ltb u (2 ^ 31) then pos u else negsuc (2 ^ 32 - 1 - u)
as_int (negsuc k) = negsuc k

-- The bytes of a list behind the first `n`.
unfoldable pub bytes_behind : ℕ → List ℕ → List ℕ
bytes_behind zero bs = bs
bytes_behind (suc n) [] = []
bytes_behind (suc n) (b ∷ bs) = bytes_behind n bs

module _ {W : Type 0} (net : Net W) where
  -- `errno == EINTR` and `errno == ETIMEDOUT`
  unfoldable pub interrupted : W → Bool
  interrupted w = eqb_ℤ (net.errno w) net.eintr

  unfoldable pub timed_out : W → Bool
  timed_out w = eqb_ℤ (net.errno w) net.etimedout

  -- What the loop of readn does behind recv: `again` is the loop, on the number of bytes left and
  -- what is in the buffer.
  unfoldable pub read_step :
      (ℕ → List ℕ → W → Attempt (ReadReply W)) → ℕ → List ℕ → Received → W → Attempt (ReadReply W)
  read_step again nleft buf lost w =
      if interrupted w
      then again nleft buf w
      else done (record { ret = negsuc 0; buf = buf; world = w })
  read_step again nleft buf (arrived []) w =
      done (record { ret = pos (length buf); buf = buf; world = w })
  read_step again nleft buf (arrived (b ∷ bs)) w = again (nleft - length (b ∷ bs)) (buf ++ b ∷ bs) w

  -- The loop of readn, with `nleft` bytes left and `buf` in the buffer: what has come so far is
  -- `count - nleft`, the length of `buf`, here still a size_t.
  unfoldable pub read_left : ℕ → ℤ → ℕ → List ℕ → W → Attempt (ReadReply W)
  unfolding read_step
  read_left fuel fd zero buf w = done (record { ret = pos (length buf); buf = buf; world = w })
  read_left zero fd (suc n) buf w = stuck
  read_left (suc fuel) fd (suc n) buf w =
      let r = net.recv fd (suc n) w in read_step (read_left fuel fd) (suc n) buf r.0 r.1

  -- readn: what the loop returns is made an int.
  unfoldable pub readn : ℕ → ℤ → ℕ → W → Attempt (ReadReply W)
  unfolding read_left as_int
  readn fuel fd count w = read_left fuel fd count [] w >>= λ r.
      done (record { ret = as_int r.ret; buf = r.buf; world = r.world })

  -- What the loop of writen does behind send; `bs` was still to be sent.
  unfoldable pub write_step :
      (List ℕ → W → Attempt (Answer W)) → List ℕ → ℤ → W → Attempt (Answer W)
  unfolding bytes_behind
  write_step again bs (negsuc n) w =
      if interrupted w then again bs w else done (record { ret = negsuc 0; world = w })
  write_step again bs (pos n) w = again (bytes_behind n bs) w

  -- The loop of writen, with `bs` still to be sent of `count` bytes, here still a size_t.
  unfoldable pub write_left : ℕ → ℤ → ℕ → List ℕ → W → Attempt (Answer W)
  unfolding write_step
  write_left fuel fd count [] w = done (record { ret = pos count; world = w })
  write_left zero fd count (b ∷ bs) w = stuck
  write_left (suc fuel) fd count (b ∷ bs) w =
      let r = net.send fd (b ∷ bs) w in write_step (write_left fuel fd count) (b ∷ bs) r.0 r.1

  unfoldable pub writen : ℕ → ℤ → List ℕ → W → Attempt (Answer W)
  unfolding write_left as_int
  writen fuel fd bs w = write_left fuel fd (length bs) bs w >>= λ a.
      done (record { ret = as_int a.ret; world = a.world })

  -- What recv_peek does behind recv.
  unfoldable pub peek_step : (W → Attempt (ReadReply W)) → Received → W → Attempt (ReadReply W)
  unfolding interrupted
  peek_step again lost w =
      if interrupted w then again w else done (record { ret = negsuc 0; buf = []; world = w })
  peek_step again (arrived bs) w = done (record { ret = pos (length bs); buf = bs; world = w })

  -- recv_peek
  unfoldable pub recv_peek : ℕ → ℤ → ℕ → W → Attempt (ReadReply W)
  unfolding peek_step
  recv_peek zero fd n w = stuck
  recv_peek (suc fuel) fd n w = let r = net.peek fd n w in peek_step (recv_peek fuel fd n) r.0 r.1
