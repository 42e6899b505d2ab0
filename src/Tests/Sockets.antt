-- ===== src/Tests/Sockets.antt =====
-- A pool of two connections, on a system whose descriptors count up and whose server answers.
use exc.Common.{
  ℕ, ◌+◌, ◌<◌, ◌≡◌, refl, arith, Bool, true, false, ltb, List, [], ◌∷◌, some, ◌⊎◌, ℤ, pos, negsuc,
  eqb_ℤ,
}
use exc.SocketPool.{
  close_conn, Pool, Reply, Os, Memory, valid_is_zero, init, fill, connect_all, connect, get_connet,
  check_status, hand_out, put_connet, failed,
}
use exc.SocketPool.Sound.{IsOs, Sound, kept}
use exc.SocketPool.Lending.{Renewed, get_connet_lem, put_connet_lem}
use exc.SocketPool.Open.{HasMemory, Serving}
use exc.SocketPool.Open.Serving.{started, got}
use exc.SocketPool.Exclusive.{Serving-Sound}

abbrev test_os : Os ℕ
test_os = record {
  bad_server = false;
  socket = λ w. (pos w, w + 1);
  connect_timeout = λ s w. (pos 0, w);
  timed_out = λ w. false;
  error = λ w. pos 5;
  close_socket = λ s w. w;
}

abbrev is_opened : ℕ → ℤ → Bool
is_opened w (pos n) = ltb n w
is_opened w (negsuc n) = false

is_opened-more : (w : ℕ) (fd : ℤ) → is_opened w fd ≡ true → is_opened (w + 1) fd ≡ true
is_opened-more w (pos n) o = ground arith
is_opened-more w (negsuc n) o = cc

test_os-IsOs : IsOs test_os is_opened
test_os-IsOs = record {
  fresh = λ w e. ground arith;
  made = λ w e. ground arith;
  error = λ w e. refl;
  socket_keeps = λ w fd o. is_opened-more w fd o;
  connect_keeps = λ s w fd o. o;
  close_keeps = λ s w fd d o. o;
}

-- A block that malloc gave holds what was there before.
abbrev dirty : List ℤ
dirty = pos 7 ∷ pos 1 ∷ []

abbrev test_memory : Memory
test_memory = record {
  handle_block = some (pos 0);
  lock_block = true;
  fd_block = some dirty;
  status_block = some dirty;
}

abbrev full_pool : Pool
full_pool = record {
  fd_array = pos 3 ∷ pos 4 ∷ [];
  status_array = pos 1 ∷ pos 1 ∷ [];
  valid = 2;
  nvalid = 0;
  bounds = 2;
  terminated = pos 0;
}

abbrev start : ℕ → ℤ × ℕ
start w = (pos 0, w)

full_reply :
    init test_os start test_memory 2 3
    ≡ some (record { ret = pos 0; connfd = pos 0; pool = some full_pool; world = 5 })
unfolding init fill connect_all connect
full_reply = refl

test_HasMemory : HasMemory test_os is_opened test_os-IsOs test_memory 2
test_HasMemory = record {
  terminated = pos 0;
  fds = dirty;
  status = dirty;
  handle_given = refl;
  lock_given = refl;
  fds_given = refl;
  status_given = refl;
  not_terminated = refl;
  fds_length = refl;
  status_length = refl;
}

full_Serving : Serving test_os is_opened test_os-IsOs full_pool 5 []
full_Serving =
    started start test_memory 2 3
      (record { ret = pos 0; connfd = pos 0; pool = some full_pool; world = 5 }) full_pool
      test_HasMemory refl full_reply refl

abbrev one_left : Pool
one_left = record full_pool { valid = 1 }

get_test :
    get_connet test_os (some full_pool) true 5
    ≡ some (record { ret = pos 0; connfd = pos 4; pool = some one_left; world = 5 })
unfolding get_connet check_status hand_out
get_test = refl

lent_Serving : Serving test_os is_opened test_os-IsOs one_left 5 (pos 4 ∷ [])
lent_Serving =
    got full_pool one_left 5 []
      (record { ret = pos 0; connfd = pos 4; pool = some one_left; world = 5 }) full_Serving
      get_test refl refl

serving_example : Sound test_os is_opened one_left 5 (pos 4 ∷ [])
serving_example = Serving-Sound test_os is_opened test_os-IsOs lent_Serving

get_connet_example :
    ((full_pool.valid ≡ 0)
      × (get_connet test_os (some full_pool) true 5 ≡ failed valid_is_zero full_pool 5))
    ⊎ ((0 < full_pool.valid)
        × (fd : ℤ) × (p' : Pool) × (get_connet test_os (some full_pool) true 5
            ≡ some (record { ret = pos 0; connfd = fd; pool = some p'; world = 5 }))
        × (p'.valid + 1 ≡ full_pool.valid)
        × Sound test_os is_opened p' 5 (fd ∷ []))
get_connet_example =
    get_connet_lem test_os is_opened test_os-IsOs full_pool 5 []
      (Serving-Sound test_os is_opened test_os-IsOs full_Serving)

put_connet_example :
    (r : Reply ℕ) × (p' : Pool) × (put_connet test_os (some one_left) (pos 4) (pos 0) 5 ≡ some r)
    × (r.pool ≡ some p')
    × Sound test_os is_opened p' r.world []
    × (((eqb_ℤ (pos 0) (pos 1) ≡ true)
          × (r.ret ≡ pos 0)
          × (r.world ≡ 5)
          × (p' ≡ kept one_left (pos 4)))
        ⊎ ((eqb_ℤ (pos 0) (pos 1) ≡ false)
            × Renewed test_os is_opened test_os-IsOs
                (connect test_os (pos 0) (close_conn test_os (pos 4) 5))
                one_left
                r
                p'))
put_connet_example =
    put_connet_lem test_os is_opened test_os-IsOs one_left 5 [] [] (pos 4) (pos 0)
      (Serving-Sound test_os is_opened test_os-IsOs lent_Serving)
