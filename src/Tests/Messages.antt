-- ===== src/Tests/Messages.antt =====
-- Messages over a system that gives three bytes at a time, takes all of a frame, and interrupts some
-- calls.
use exc.Common.{
  ℕ, zero, suc, ◌+◌, ◌-◌, ◌≡◌, ◌≢◌, ◌≤◌, ◌<◌, refl, ap, arith, Bool, true, false, List, [], ◌∷◌,
  ◌++◌, some, length, ℤ, pos, negsuc, pos_part, if◌then◌else◌,
}
use exc.SocketUtil.{
  Net, Received, lost, arrived, done, interrupted, readn, writen, as_int, bytes_behind,
}
use exc.SocketUtil.Waits.{read_timeout, select_wait}
use exc.SocketUtil.Frames.{client_send, server_send, client_rev}
use exc.SocketUtil.Stream.{IsStream, Recv, Breaks}
use exc.SocketUtil.Whole.{Ends, readn-Ends}
use exc.SocketUtil.Receive.{Receives, client_rev-Receives, Late, Denies}
use exc.SocketUtil.Sending.{IsOutlet, Send, Writes, writen-Writes, Sends, Idles, client_send-Sends}
use exc.SocketUtil.RoundTrip.{Tells, Hears, Hears-Tells}
use exc.SocketUtil.Blocks.{CountsBlocks, Adds, client_send-Adds}

-- The signals to come, the bytes to come, those taken, the blocks in use, and errno.
data System : Type 0 where
  system : ℕ → List ℕ → List ℕ → ℕ → ℤ → System

abbrev first_three : List ℕ → ℕ → List ℕ
first_three [] n = []
first_three (a ∷ l) zero = []
first_three (a ∷ []) (suc n) = a ∷ []
first_three (a ∷ b ∷ l) (suc zero) = a ∷ []
first_three (a ∷ b ∷ []) (suc (suc n)) = a ∷ b ∷ []
first_three (a ∷ b ∷ c ∷ l) (suc (suc zero)) = a ∷ b ∷ []
first_three (a ∷ b ∷ c ∷ l) (suc (suc (suc n))) = a ∷ b ∷ c ∷ []

abbrev behind_three : List ℕ → ℕ → List ℕ
behind_three [] n = []
behind_three (a ∷ l) zero = a ∷ l
behind_three (a ∷ []) (suc n) = []
behind_three (a ∷ b ∷ l) (suc zero) = b ∷ l
behind_three (a ∷ b ∷ []) (suc (suc n)) = []
behind_three (a ∷ b ∷ c ∷ l) (suc (suc zero)) = c ∷ l
behind_three (a ∷ b ∷ c ∷ l) (suc (suc (suc n))) = l

abbrev sys_recv : ℕ → System → Received × System
sys_recv n (system (suc k) i o m e) = (lost, system k i o m (pos 4))
sys_recv n (system zero i o m e) =
    (arrived (first_three i n), system zero (behind_three i n) o m (pos 0))

abbrev sys_send : List ℕ → System → ℤ × System
sys_send bs (system (suc k) i o m e) = (negsuc 0, system k i o m (pos 4))
sys_send bs (system zero i o m e) = (pos (length bs), system zero i (o ++ bs) m (pos 0))

abbrev sys_malloc : System → Bool × System
sys_malloc (system k i o m e) = (true, system k i o (m + 1) e)

abbrev sys_free : System → System
sys_free (system k i o m e) = system k i o (m - 1) e

abbrev sys_errno : System → ℤ
sys_errno (system k i o m e) = e

abbrev sys_set_errno : ℤ → System → System
sys_set_errno x (system k i o m e) = system k i o m x

abbrev to_come : System → List ℕ
to_come (system k i o m e) = i

abbrev taken : System → List ℕ
taken (system k i o m e) = o

abbrev signals : System → ℕ
signals (system k i o m e) = k

abbrev in_use : System → ℕ
in_use (system k i o m e) = m

abbrev test_net : Net System
test_net = record {
  eintr = pos 4;
  etimedout = pos 138;
  einprogress = pos 112;
  errno = sys_errno;
  set_errno = sys_set_errno;
  would_block = λ w. false;
  recv = λ fd n w. sys_recv n w;
  peek = λ fd n w. sys_recv n w;
  send = λ fd bs w. sys_send bs w;
  select_read = λ fd n w. (pos 1, w);
  select_write = λ fd n w. (pos 1, w);
  set_nonblock = λ fd b w. (false, w);
  connect = λ fd w. (pos 0, w);
  socket_error = λ fd w. (some (pos 0), w);
  accept = λ fd w. (negsuc 0, sys_set_errno (pos 24) w);
  startup = λ w. (pos 0, w);
  cleanup = λ w. w;
  socket = λ w. (pos 3, w);
  reuse_address = λ fd w. (pos 0, w);
  bind = λ fd port w. (pos 0, w);
  listen = λ fd w. (pos 0, w);
  close_socket = λ fd w. w;
  malloc = λ n w. sys_malloc w;
  free = sys_free;
}

cut_three :
    (i : List ℕ) (n : ℕ)
    → (i ≡ first_three i n ++ behind_three i n) × (length (first_three i n) ≤ n)
cut_three [] n = (refl, omega arith)
cut_three (a ∷ l) zero = (refl, omega arith)
cut_three (a ∷ []) (suc n) = (refl, omega arith)
cut_three (a ∷ b ∷ l) (suc zero) = (refl, omega arith)
cut_three (a ∷ b ∷ []) (suc (suc n)) = (refl, omega arith)
cut_three (a ∷ b ∷ c ∷ l) (suc (suc zero)) = (refl, omega arith)
cut_three (a ∷ b ∷ c ∷ l) (suc (suc (suc n))) = (refl, omega arith)

none_three : (i : List ℕ) (n : ℕ) → first_three i (suc n) ≡ [] → i ≡ []
none_three [] n e = refl
none_three (a ∷ []) n e = cc
none_three (a ∷ b ∷ l) zero e = cc
none_three (a ∷ b ∷ []) (suc n) e = cc
none_three (a ∷ b ∷ c ∷ l) (suc zero) e = cc
none_three (a ∷ b ∷ c ∷ l) (suc (suc n)) e = cc

test-Recv :
    (n : ℕ) (w : System)
    → let r = sys_recv (suc n) w in
      Recv
        (suc n)
        r.0
        (to_come w)
        (to_come r.1)
        (signals w)
        (signals r.1)
        (interrupted test_net r.1)
test-Recv n (system (suc k) i o m e) = (refl, omega arith, λ s. omega arith)
test-Recv n (system zero i o m e) =
    let (cut, fits) = cut_three i (suc n) in (cut, fits, omega arith, none_three i n)

errno_keeps :
    (e : ℤ) (w : System)
    → (to_come (sys_set_errno e w) ≡ to_come w)
      × (taken (sys_set_errno e w) ≡ taken w)
      × (signals (sys_set_errno e w) ≤ signals w)
      × (in_use (sys_set_errno e w) ≡ in_use w)
errno_keeps e (system k i o m x) = (refl, refl, omega arith, refl)

malloc_keeps :
    (w : System)
    → (to_come (sys_malloc w).1 ≡ to_come w)
      × (taken (sys_malloc w).1 ≡ taken w)
      × (signals (sys_malloc w).1 ≤ signals w)
      × (in_use (sys_malloc w).1 ≡ (if (sys_malloc w).0 then in_use w + 1 else in_use w))
malloc_keeps (system k i o m x) = (refl, refl, omega arith, refl)

free_keeps : (w : System) → (taken (sys_free w) ≡ taken w) × (in_use (sys_free w) ≡ in_use w - 1)
free_keeps (system k i o m x) = (refl, refl)

send_keeps : (bs : List ℕ) (w : System) → in_use (sys_send bs w).1 ≡ in_use w
send_keeps bs (system (suc k) i o m e) = refl
send_keeps bs (system zero i o m e) = refl

test_net-IsStream : IsStream test_net (λ fd. to_come) signals
test_net-IsStream = record {
  recv_law = λ fd n w. test-Recv n w;
  select_stream = λ fd n c w. refl;
  select_interrupts = λ fd n w. (omega arith, λ e. cc);
  errno_stream = λ e c w. (errno_keeps e w).0;
  errno_interrupts = λ e w. (errno_keeps e w).2;
  malloc_stream = λ n c w. (malloc_keeps w).0;
  malloc_interrupts = λ n w. (malloc_keeps w).2;
}

bytes_behind_all : (bs : List ℕ) → bs ≡ bs ++ bytes_behind (length bs) bs
unfolding bytes_behind
bytes_behind_all [] = refl
bytes_behind_all (b ∷ bs) = ap (λ l. b ∷ l) (bytes_behind_all bs)

test-Send :
    (bs : List ℕ) (w : System)
    → 0 < length bs
    → let r = sys_send bs w in
      Send bs r.0 (taken w) (taken r.1) (signals w) (signals r.1) (interrupted test_net r.1)
test-Send bs (system (suc k) i o m e) h = (refl, omega arith, λ s. omega arith)
test-Send bs (system zero i o m e) h =
    (bs, refl, bytes_behind_all bs, refl, omega arith, λ z. absurd (omega (arith, z)))

test_net-IsOutlet : IsOutlet test_net (λ fd. taken) signals
test_net-IsOutlet = record {
  send_law = λ fd bs w h. test-Send bs w h;
  select_outgoing = λ fd n c w. refl;
  select_interrupts = λ fd n w. (omega arith, λ e. cc);
  errno_outgoing = λ e c w. (errno_keeps e w).1;
  malloc_outgoing = λ n c w. (malloc_keeps w).1;
  free_outgoing = λ c w. (free_keeps w).0;
}

test_net-CountsBlocks : CountsBlocks test_net in_use
test_net-CountsBlocks = record {
  malloc_law = λ n w. (malloc_keeps w).3;
  free_law = λ w. (free_keeps w).1;
  send_blocks = λ fd bs w. send_keeps bs w;
  select_blocks = λ fd n w. refl;
  errno_blocks = λ e w. (errno_keeps e w).3;
}

sound-Breaks : ¬ Breaks test_net (pos 3)
unfolding interrupted
sound-Breaks (n, system (suc k) i o m e, l, off) = cc
sound-Breaks (n, system zero i o m e, l, off) = cc

sound-Denies : ¬ Denies test_net (λ fd. to_come) signals
sound-Denies (n, system k i o m e, f) = cc

sound-Idles : ¬ Idles test_net (λ fd. taken) signals
sound-Idles (fd, [], system k i o m e, h, z) = absurd (omega arith)
sound-Idles (fd, b ∷ bs, system (suc k) i o m e, h, z) = cc
sound-Idles (fd, b ∷ bs, system zero i o m e, h, z) = absurd (omega (arith, ap pos_part z))

sound-Late : (fuel : ℕ) (w : System) → ¬ Late test_net fuel (pos 3) 0 w
unfolding read_timeout
sound-Late fuel w (a, e, off) = cc

abbrev two_messages : List (List ℕ)
two_messages = (1 ∷ 2 ∷ 3 ∷ 4 ∷ []) ∷ (9 ∷ []) ∷ []

abbrev fresh : System
fresh = system 0 [] [] 0 (pos 0)

abbrev sent_both : System
sent_both = system 0 [] (0 ∷ 0 ∷ 0 ∷ 4 ∷ 1 ∷ 2 ∷ 3 ∷ 4 ∷ 0 ∷ 0 ∷ 0 ∷ 1 ∷ 9 ∷ []) 0 (pos 0)

-- Two signals are to come while the frames of both arrive.
abbrev arriving : System
arriving = system 2 [] [] 0 (pos 0)

abbrev inbox : System
inbox = system 2 (0 ∷ 0 ∷ 0 ∷ 4 ∷ 1 ∷ 2 ∷ 3 ∷ 4 ∷ 0 ∷ 0 ∷ 0 ∷ 1 ∷ 9 ∷ []) [] 0 (pos 0)

readn_run :
    readn test_net 9 (pos 3) 4 inbox
    ≡ done (record {
      ret = pos 4;
      buf = 0 ∷ 0 ∷ 0 ∷ 4 ∷ [];
      world = system 0 (1 ∷ 2 ∷ 3 ∷ 4 ∷ 0 ∷ 0 ∷ 0 ∷ 1 ∷ 9 ∷ []) [] 0 (pos 0);
    })
unfolding readn as_int interrupted
readn_run = refl

readn-Ends_example :
    Ends test_net
      (λ fd. to_come)
      signals
      (pos 3)
      4
      (to_come inbox)
      2
      (readn test_net 16 (pos 3) 4 inbox)
readn-Ends_example =
    readn-Ends test_net (λ fd. to_come) signals test_net-IsStream 16 (pos 3) 4 inbox (omega arith)
      (omega arith)

writen-Writes_example :
    Writes test_net
      (λ fd. taken)
      signals
      (pos 3)
      2
      (7 ∷ 8 ∷ [])
      []
      (writen test_net 5 (pos 3) (7 ∷ 8 ∷ []) arriving)
writen-Writes_example =
    writen-Writes test_net (λ fd. taken) signals test_net-IsOutlet 5 (pos 3) (7 ∷ 8 ∷ []) arriving
      (omega arith) (omega arith)

client_rev-Receives_example :
    Receives test_net
      (λ fd. to_come)
      signals
      (Late test_net 16 (pos 3) 0 inbox)
      (pos 3)
      (to_come inbox)
      2
      (client_rev test_net 16 (pos 3) 0 true inbox)
client_rev-Receives_example =
    client_rev-Receives test_net (λ fd. to_come) signals test_net-IsStream 16 (pos 3) 0 inbox
      (omega arith) (omega arith)

client_send-Sends_example :
    Sends test_net
      (λ fd. taken)
      signals
      (pos 3)
      (9 ∷ [])
      []
      (client_send test_net 3 (pos 3) 0 (some (9 ∷ [])) arriving)
    × Sends test_net
        (λ fd. taken)
        signals
        (pos 3)
        (9 ∷ [])
        []
        (server_send test_net 3 (pos 3) 0 (9 ∷ []) arriving)
client_send-Sends_example =
    client_send-Sends test_net (λ fd. taken) signals test_net-IsOutlet 3 (pos 3) 0 9 [] arriving
      (omega arith) (omega arith)

client_sends_both : Tells test_net signals (pos 3) 0 two_messages fresh sent_both
unfolding client_send
client_sends_both =
    let after : System = system 0 [] (0 ∷ 0 ∷ 0 ∷ 4 ∷ 1 ∷ 2 ∷ 3 ∷ 4 ∷ []) 0 (pos 0) in
    (
      1,
      record { ret = pos 0; world = after },
      omega arith,
      refl,
      refl,
      (1, record { ret = pos 0; world = sent_both }, omega arith, refl, refl, refl),
    )

Hears-Tells_example :
    (end : System) × Hears test_net 16 (pos 3) 0 two_messages inbox end × (to_come end ≡ [])
Hears-Tells_example =
    Hears-Tells test_net (λ fd. taken) signals test_net-IsOutlet test_net (λ fd. to_come) signals
      test_net-IsStream 16 (pos 3) (pos 3) 0 0 two_messages fresh sent_both inbox sound-Idles
      sound-Breaks sound-Denies (sound-Late 16) (omega arith) refl client_sends_both refl
      (omega arith)

sys_send_takes : (l : List ℕ) (v : System) → 0 < length l → (sys_send l v).0 ≢ pos 0
sys_send_takes l (system (suc k) i o m e) h z = cc
sys_send_takes [] (system zero i o m e) h z = absurd (omega arith)
sys_send_takes (b ∷ l) (system zero i o m e) h z = absurd (omega (arith, ap pos_part z))

client_send-Adds_example :
    Adds test_net in_use test_net-CountsBlocks 0 0
      (client_send test_net 1 (pos 3) 0 (some (9 ∷ [])) fresh)
    × Adds test_net in_use test_net-CountsBlocks 1 0
        (server_send test_net 1 (pos 3) 0 (9 ∷ []) fresh)
client_send-Adds_example =
    client_send-Adds test_net in_use test_net-CountsBlocks 1 (pos 3) 0 (some (9 ∷ [])) (9 ∷ [])
      fresh (λ c l v h. sys_send_takes l v h)

selects :
    select_wait test_net 1 (test_net.select_read (pos 3) 5) fresh
    ≡ done (record { ret = pos 1; world = fresh })
unfolding select_wait
selects = refl
