-- ===== src/SocketUtil/Frames.antt =====
-- tpc/poolsocket/socketutil.cpp: messages, each a length of four bytes in network order and so many
-- bytes. The sizes are those of a system with an int of 32 bits and a size_t of 64.
use exc.Common.{
  ℕ, ◌+◌, ◌-◌, ◌*◌, ◌/◌, ◌%◌, ◌^◌, Bool, true, false, not, ◌&&◌, ◌||◌, if◌then◌else◌, ltb, ◌==◌,
  List, [], ◌∷◌, ◌++◌, Option, none, some, length, ℤ, pos, negsuc, ltb_ℤ, eqb_ℤ,
}
use exc.SocketUtil.{
  Net, Attempt, done, undefined, ◌>>=◌, Answer, ReadReply, read_left, readn, timed_out,
}
pub use exc.SocketPool.{sck_err_param, sck_err_time_out, sck_err_malloc}
use exc.SocketUtil.Waits.{write_timeout, read_timeout}

-- An error code of poolsocket.h, of which the pool has the others.
abbrev pub sck_err_peer_closed : ℤ
sck_err_peer_closed = pos 3003

-- The four bytes of `htonl(n)`, as they stand in memory.
unfoldable pub htonl_bytes : ℕ → List ℕ
htonl_bytes n = n / 2 ^ 24 % 256 ∷ n / 2 ^ 16 % 256 ∷ n / 2 ^ 8 % 256 ∷ n % 256 ∷ []

-- The number that such bytes stand for.
unfoldable pub from_bytes : ℕ → List ℕ → ℕ
from_bytes acc [] = acc
from_bytes acc (b ∷ bs) = from_bytes (acc * 256 + b) bs

-- `n = ntohl(netdatalen)`, a signed number.
unfoldable pub ntohl_int : List ℕ → ℤ
unfolding from_bytes
ntohl_int bs = let u = from_bytes 0 bs in if ltb u (2 ^ 31) then pos u else negsuc (2 ^ 32 - 1 - u)

-- What is sent for a message.
unfoldable pub frame : List ℕ → List ℕ
unfolding htonl_bytes
frame bs = htonl_bytes (length bs) ++ bs

-- What a receiving function returns. `out` is the block that it hands out, `outlen` the length.
pub record Delivery (W : Type 0) : Type 0 where
  pub ret : ℤ
  pub out : Option (List ℕ)
  pub outlen : ℤ
  pub world : W

module _ {W : Type 0} where
  abbrev pub answer : ℤ → W → Attempt (Answer W)
  answer ret w = done (record { ret = ret; world = w })

  abbrev pub nothing : ℤ → W → Attempt (Delivery W)
  nothing ret w = done (record { ret = ret; out = none; outlen = pos 0; world = w })

  -- A body of `n` bytes in a block of n + 1.
  unfoldable pub body_read : ℕ → ReadReply W → Attempt (Delivery W)
  body_read n r =
      if eqb_ℤ r.ret (negsuc 0)
      then nothing (negsuc 0) r.world
      else if ltb_ℤ r.ret (pos n)
      then nothing sck_err_peer_closed r.world
      else done
          (record { ret = pos 0; out = some (r.buf ++ 0 ∷ []); outlen = pos n; world = r.world })

  -- With a length below 0 that malloc takes, the block is as large as readn believes, but for -1;
  -- what is not an error writes in front of it. `ret` is the size_t in readn: no malloc gives a
  -- block that large, and so none whose bytes an int could not count.
  unfoldable pub astray : ReadReply W → Attempt (Delivery W)
  astray r = if eqb_ℤ r.ret (negsuc 0) then nothing (negsuc 0) r.world else undefined

module _ {W : Type 0} (net : Net W) where
  -- Behind the wait: a block for the frame, one call of send, and the block is freed where
  -- fewer bytes went, and at the end if `frees`.
  unfoldable pub put_frame : Bool → ℤ → List ℕ → W → Attempt (Answer W)
  unfolding frame
  put_frame frees fd bs w =
      let m = net.malloc (length bs + 4) w in
      let s = net.send fd (frame bs) m.1 in
      if not m.0
      then answer sck_err_malloc m.1
      else if ltb_ℤ s.0 (pos (length bs + 4))
      then answer s.0 (net.free s.1)
      else answer (pos 0) (if frees then net.free s.1 else s.1)

  -- The end of both sending functions.
  unfoldable pub send_failed : Answer W → Attempt (Answer W)
  unfolding timed_out
  send_failed a =
      if eqb_ℤ a.ret (negsuc 0) && timed_out net a.world
      then answer sck_err_time_out a.world
      else answer a.ret a.world

  -- `data` of `datalen` bytes, which stand there; datalen + 4 must not overflow.
  unfoldable pub send_with : Bool → ℕ → ℤ → ℕ → List ℕ → W → Attempt (Answer W)
  unfolding write_timeout put_frame send_failed
  send_with frees fuel fd sendtime bs w = write_timeout net fuel fd sendtime w >>= λ a.
      if eqb_ℤ a.ret (pos 0) then put_frame frees fd bs a.world else send_failed a

  -- sckClient_send: none is NULL.
  unfoldable pub client_send : ℕ → ℤ → ℕ → Option (List ℕ) → W → Attempt (Answer W)
  unfolding send_with
  client_send fuel fd sendtime none w = answer sck_err_param w
  client_send fuel fd sendtime (some []) w = answer sck_err_param w
  client_send fuel fd sendtime (some (b ∷ bs)) w =
      if ltb (2 ^ 31 - 5) (length (b ∷ bs))
      then undefined
      else send_with true fuel fd sendtime (b ∷ bs) w

  -- sckServer_send, which tests nothing and does not free the block at the end.
  unfoldable pub server_send : ℕ → ℤ → ℕ → List ℕ → W → Attempt (Answer W)
  unfolding send_with
  server_send fuel fd timeout bs w =
      if ltb (2 ^ 31 - 5) (length bs) then undefined else send_with false fuel fd timeout bs w

  -- From `n = ntohl(netdatalen)` on. `n + 1` overflows at the largest int.
  unfoldable pub read_body : ℕ → ℤ → ℤ → W → Attempt (Delivery W)
  unfolding read_left readn body_read astray
  read_body fuel fd (pos n) w =
      let m = net.malloc (n + 1) w in
      if n == 2 ^ 31 - 1
      then undefined
      else if not m.0
      then nothing sck_err_malloc m.1
      else (readn net fuel fd n m.1 >>= λ r. body_read n r)
  read_body fuel fd (negsuc k) w =
      let m = net.malloc ((2 ^ 64 - k) % 2 ^ 64) w in
      if not m.0
      then nothing sck_err_malloc m.1
      else if k == 0
      then undefined
      else (read_left net fuel fd (2 ^ 64 - 1 - k) [] m.1 >>= λ r. astray r)

  -- The four bytes of the length have been read, or not.
  unfoldable pub length_read : ℕ → ℤ → ReadReply W → Attempt (Delivery W)
  unfolding read_body ntohl_int
  length_read fuel fd r =
      if eqb_ℤ r.ret (negsuc 0)
      then nothing (negsuc 0) r.world
      else if ltb_ℤ r.ret (pos 4)
      then nothing sck_err_peer_closed r.world
      else read_body fuel fd (ntohl_int r.buf) r.world

  -- Behind the wait. Any -1 is a timeout to the code.
  unfoldable pub after_wait : ℕ → ℤ → Answer W → Attempt (Delivery W)
  unfolding readn length_read timed_out
  after_wait fuel fd a =
      if eqb_ℤ a.ret (pos 0)
      then (readn net fuel fd 4 a.world >>= λ r. length_read fuel fd r)
      else if eqb_ℤ a.ret (negsuc 0) || timed_out net a.world
      then nothing sck_err_time_out a.world
      else nothing a.ret a.world

  -- sckClient_rev: `given` is whether out and outlen are not NULL.
  unfoldable pub client_rev : ℕ → ℤ → ℕ → Bool → W → Attempt (Delivery W)
  unfolding read_timeout after_wait
  client_rev fuel fd revtime given w =
      if not given
      then nothing sck_err_param w
      else (read_timeout net fuel fd revtime w >>= λ a. after_wait fuel fd a)

  -- sckServer_rev, but for what it logs the same statements.
  unfoldable pub server_rev : ℕ → ℤ → ℕ → Bool → W → Attempt (Delivery W)
  unfolding client_rev
  server_rev = client_rev
