-- ===== src/SocketPool.antt =====
-- tpc/poolsocket/poolsocket.cpp: a pool of connections of a client to one server, on the functions
-- of socketutil.cpp. Each operation is one step, under the critical section of the pool; `none` is
-- undefined behaviour. The sockets of the system are parameters, on a state `W` of the system.
pub mod Slots
pub mod Sound
pub mod Lending
pub mod Open
pub mod Exclusive
use exc.Common.{
  ℕ, zero, suc, ◌+◌, ◌-◌, Bool, true, false, ◌&&◌, ◌||◌, not, if◌then◌else◌, ltb, leb, ◌==◌, List,
  [], ◌∷◌, Option, none, some, length, get_elem?, get_or, set, ℤ, pos, negsuc, ltb_ℤ, leb_ℤ, eqb_ℤ,
}

-- The error codes of poolsocket.h. The last three are one number.
abbrev pub sck_err_param : ℤ
sck_err_param = pos 3001

abbrev pub sck_err_time_out : ℤ
sck_err_time_out = pos 3002

abbrev pub sck_err_malloc : ℤ
sck_err_malloc = pos 3004

abbrev pub create_conn : ℤ
create_conn = pos 3020

abbrev pub pool_terminated : ℤ
pool_terminated = pos 3021

abbrev pub valid_is_zero : ℤ
valid_is_zero = pos 3022

abbrev pub have_exist : ℤ
have_exist = pos 3022

abbrev pub valid_bounds : ℤ
valid_bounds = pos 3022

-- SockePoolHandle. The address and the times of the server are part of the parameters.
pub record Pool : Type 0 where
  pub fd_array : List ℤ
  pub status_array : List ℤ
  pub valid : ℕ
  pub nvalid : ℕ
  pub bounds : ℕ
  pub terminated : ℤ

-- What an operation returns, `connfd` where it has one, and what it leaves.
pub record Reply (W : Type 0) : Type 0 where
  pub ret : ℤ
  pub connfd : ℤ
  pub pool : Option Pool
  pub world : W

-- The sockets of the system: `socket`, `connect_timeout` of socketutil.cpp, which waits in select,
-- `errno == ETIMEDOUT`, `errno`, and `closesocket`; `bad_server` is whether the pool has a port or a
-- time to connect that sckClient_connect refuses.
pub record Os (W : Type 0) : Type 0 where
  pub bad_server : Bool
  pub socket : W → ℤ × W
  pub connect_timeout : ℤ → W → ℤ × W
  pub timed_out : W → Bool
  pub error : W → ℤ
  pub close_socket : ℤ → W → W

-- The answer of sckClient_connect, with what stands at `connfd` behind it.
pub record Answer (W : Type 0) : Type 0 where
  pub ret : ℤ
  pub connfd : ℤ
  pub world : W

-- What sckCltPool_init gets from malloc: none is NULL, and the blocks are not cleared.
-- `memset(hdl, 0, sizeof(hdl))` clears no more than fdArray, so `terminated` is what was there.
pub record Memory : Type 0 where
  pub handle_block : Option ℤ
  pub lock_block : Bool
  pub fd_block : Option (List ℤ)
  pub status_block : Option (List ℤ)

-- The handle before the loop.
abbrev pub fresh_pool : ℤ → List ℤ → List ℤ → ℕ → Pool
fresh_pool terminated fds status bounds = record {
  fd_array = fds;
  status_array = status;
  valid = 0;
  nvalid = bounds;
  bounds = bounds;
  terminated = terminated;
}

-- The loop that looks for the connection among the first `n`.
unfoldable pub exist : List ℤ → ℕ → ℤ → Bool
exist fds zero fd = false
exist [] (suc n) fd = false
exist (x ∷ fds) (suc n) fd = eqb_ℤ x fd || exist fds n fd

module _ {W : Type 0} where
  abbrev pub refused : ℤ → W → Option (Reply W)
  refused ret w = some (record { ret = ret; connfd = pos 0; pool = none; world = w })

  abbrev pub failed : ℤ → Pool → W → Option (Reply W)
  failed ret p w = some (record { ret = ret; connfd = pos 0; pool = some p; world = w })

  -- The end of sckCltPool_getConnet, on fdArray[valid - 1].
  unfoldable pub hand_out : Option ℤ → Pool → W → Option (Reply W)
  hand_out none p w = none
  hand_out (some fd) p w = some (record {
    ret = pos 0;
    connfd = fd;
    pool = some (record p { valid = p.valid - 1 });
    world = w;
  })

  -- `fdArray[valid] = connfd; statusArray[valid] = 1; valid++`
  unfoldable pub keep : ℤ → Pool → W → Option (Reply W)
  keep fd p w =
      if ltb p.valid (length p.fd_array) && ltb p.valid (length p.status_array)
      then some (record {
        ret = pos 0;
        connfd = pos 0;
        pool = some (record p {
          fd_array = set p.fd_array p.valid fd;
          status_array = set p.status_array p.valid (pos 1);
          valid = p.valid + 1;
        });
        world = w;
      })
      else none

module _ {W : Type 0} (os : Os W) where
  -- sckClient_connect
  unfoldable pub connect : ℤ → W → Answer W
  connect old w =
      let made = os.socket w in
      let tried = os.connect_timeout made.0 made.1 in
      if os.bad_server
      then record { ret = sck_err_param; connfd = old; world = w }
      else if ltb_ℤ made.0 (pos 0)
      then record { ret = os.error made.1; connfd = old; world = made.1 }
      else if ltb_ℤ tried.0 (pos 0)
      then record {
        ret =
            if eqb_ℤ tried.0 (negsuc 0) && os.timed_out tried.1 then sck_err_time_out else tried.0;
        connfd = old;
        world = tried.1;
      }
      else record { ret = tried.0; connfd = made.0; world = tried.1 }

  -- sckClient_closeconn, which always returns 0.
  unfoldable pub close_conn : ℤ → W → W
  close_conn fd w = if ltb_ℤ (pos 0) fd then os.close_socket fd w else w

  -- The loop over the connections, of which `n` are left.
  unfoldable pub connect_all : ℕ → Pool → W → Pool × W
  connect_all zero p w = (p, w)
  connect_all (suc n) p w =
      let i = p.bounds - suc n in
      let a = connect (get_or p.fd_array i (pos 0)) w in
      let written = set p.fd_array i a.connfd in
      let q = record p {
        fd_array = written;
        status_array = set p.status_array i (pos 1);
        valid = p.valid + 1;
        nvalid = p.nvalid - 1;
      } in
      let rest = connect_all n q a.world in
      if eqb_ℤ a.ret (pos 0) then rest else (record p { fd_array = written }, a.world)

  -- The loop that closes what is marked as valid.
  unfoldable pub close_valid : List ℤ → List ℤ → W → W
  close_valid (fd ∷ fds) (s ∷ ss) w =
      close_valid fds ss (if eqb_ℤ s (pos 1) then close_conn fd w else w)
  close_valid fds ss w = w

  -- The loop, and what follows: a pool that is not full is closed and given up.
  unfoldable pub fill : Pool → W → Reply W
  unfolding connect_all close_valid
  fill p w =
      let r = connect_all p.bounds p w in
      let q = r.0 in
      if ltb q.valid q.bounds
      then record {
        ret = create_conn;
        connfd = pos 0;
        pool = none;
        world = close_valid q.fd_array q.status_array r.1;
      }
      else record { ret = pos 0; connfd = pos 0; pool = some q; world = r.1 }

  -- sckCltPool_init; `start` is sckClient_init. Where fdArray cannot be had, the end frees
  -- statusArray, which nothing has set: undefined.
  unfoldable pub init : (W → ℤ × W) → Memory → ℕ → W → Option (Reply W)
  unfolding fill
  init start m bounds w = elim m.handle_block [
    | none ↦ refused sck_err_malloc w
    | some terminated ↦
        if m.lock_block
        then elim m.fd_block [
          | none ↦ none
          | some fds ↦ elim m.status_block [
            | none ↦ refused sck_err_malloc w
            | some status ↦
                let s = start w in
                if eqb_ℤ s.0 (pos 0)
                then some (fill (fresh_pool terminated fds status bounds) s.1)
                else refused s.0 s.1
          ]
        ]
        else refused sck_err_malloc w
  ]

  -- A connection whose status is 0 is made again. It is closed only if it is 0, and then
  -- sckClient_closeconn does nothing.
  unfoldable pub reconnect : Option ℤ → Pool → W → Option (Reply W)
  unfolding hand_out
  reconnect none p w = none
  reconnect (some fd) p w =
      let a = connect fd (if eqb_ℤ fd (pos 0) then close_conn fd w else w) in
      let q = record p { fd_array = set p.fd_array (p.valid - 1) a.connfd } in
      if eqb_ℤ a.ret (pos 0)
      then hand_out (get_elem? q.fd_array (q.valid - 1)) q a.world
      else failed a.ret (record p { fd_array = set p.fd_array (p.valid - 1) (pos 0) }) a.world

  unfoldable pub check_status : Option ℤ → Pool → W → Option (Reply W)
  unfolding hand_out reconnect
  check_status none p w = none
  check_status (some s) p w =
      let fd = get_elem? p.fd_array (p.valid - 1) in
      if eqb_ℤ s (pos 0) then reconnect fd p w else hand_out fd p w

  -- sckCltPool_getConnet: `out` is whether `connfd` is not NULL. The wait for a connection keeps
  -- the critical section, so the tests behind it see what the tests before it saw.
  unfoldable pub get_connet : Option Pool → Bool → W → Option (Reply W)
  unfolding check_status
  get_connet none out w = refused sck_err_param w
  get_connet (some p) out w =
      if not out
      then failed sck_err_param p w
      else if eqb_ℤ p.terminated (pos 1)
      then failed pool_terminated p w
      else if p.valid == 0
      then failed valid_is_zero p w
      else check_status (get_elem? p.status_array (p.valid - 1)) p w

  -- A connection that does not work is closed, and a new one is tried once.
  unfoldable pub renew : ℤ → Pool → W → Option (Reply W)
  unfolding keep
  renew fd p w =
      let a = connect (pos 0) (close_conn fd w) in
      if eqb_ℤ a.ret (pos 0) then keep a.connfd p a.world else failed a.ret p a.world

  -- sckCltPool_putConnet under the critical section.
  unfoldable pub put_back : Pool → ℤ → ℤ → W → Option (Reply W)
  unfolding exist keep renew
  put_back p fd valid_flag w =
      if eqb_ℤ p.terminated (pos 1)
      then (if ltb p.valid (length p.fd_array)
          then failed pool_terminated
              (record p { fd_array = set p.fd_array p.valid fd; valid = p.valid + 1 }) w
          else none)
      else if exist p.fd_array p.valid fd
      then failed have_exist p w
      else if leb p.bounds p.valid
      then failed valid_bounds p w
      else if eqb_ℤ valid_flag (pos 1)
      then keep fd p w
      else renew fd p w

  -- sckCltPool_putConnet. A bad argument leads to the end, which leaves the critical section of a
  -- handle that is still NULL.
  unfoldable pub put_connet : Option Pool → ℤ → ℤ → W → Option (Reply W)
  unfolding put_back
  put_connet none fd valid_flag w = none
  put_connet (some p) fd valid_flag w =
      if ltb_ℤ fd (pos 0) then none else put_back p fd valid_flag w

  -- The loop of sckCltPool_destroy over all of fdArray, whatever is valid.
  unfoldable pub close_all : List ℤ → W → W
  close_all [] w = w
  close_all (fd ∷ fds) w = close_all fds (if eqb_ℤ fd (pos 0) then w else close_conn fd w)

  -- sckCltPool_destroy; `stop` is sckClient_destroy. The handle is freed.
  unfoldable pub destroy : (W → W) → Option Pool → W → Reply W
  unfolding close_all
  destroy stop none w = record { ret = sck_err_param; connfd = pos 0; pool = none; world = w }
  destroy stop (some p) w = record {
    ret = pos 0;
    connfd = pos 0;
    pool = none;
    world = stop (close_all p.fd_array w);
  }

-- sckCltPool_send: `data` is none for NULL; `send` is sckClient_send with the time of the pool.
unfoldable pub send_data :
    {W : Type 0} → (ℤ → List ℕ → W → ℤ × W) → Option Pool → ℤ → Option (List ℕ) → ℤ → W → ℤ × W
send_data send none fd data_ptr datalen w = (sck_err_param, w)
send_data send (some p) fd none datalen w = (sck_err_param, w)
send_data send (some p) fd (some bytes) datalen w =
    if ltb_ℤ fd (pos 0) || leb_ℤ datalen (pos 0) then (sck_err_param, w) else send fd bytes w

-- sckCltPool_rev: `has_out` is whether `out` and `outlen` are not NULL, and `receive` is
-- sckClient_rev, which answers with the bytes.
unfoldable pub receive_data :
    {W : Type 0} → (ℤ → W → ℤ × List ℕ × W) → Option Pool → ℤ → Bool → W → ℤ × List ℕ × W
receive_data receive none fd has_out w = (sck_err_param, [], w)
receive_data receive (some p) fd has_out w =
    if ltb_ℤ fd (pos 0) || not has_out then (sck_err_param, [], w) else receive fd w
