-- ===== src/Iocp/Tests.antt =====
-- The theorems on KanchoNet/Network/IOCPModel at a small system.
use kancho_net.Common.{
  ℕ, suc, ◌+◌, ◌*◌, ◌≡◌, refl, Bool, true, false, [], ◌∷◌, none, some, arith, ◌==◌, if◌then◌else◌,
}
use kancho_net.Types.{connected}
use kancho_net.Types
use kancho_net.Config.{Config}
use kancho_net.Config
use kancho_net.Packet.{Packet}
use kancho_net.Packet
use kancho_net.Ring.{Ring}
use kancho_net.Session.{Session, default_config, is_disconnected}
use kancho_net.Manager.{Manager, find, deref}
use kancho_net.Net.{ok, fault, Kernel, closes, ends_network, would_block, closed, no_more, events}
use kancho_net.Host.Access.{Owns}
use kancho_net.Windows.{Windows, completed, timed_out, invalid_socket}
use kancho_net.Iocp.State.{Iocp, App, Context, context_of}
use kancho_net.Iocp.Post.{send}
use kancho_net.Iocp.Complete.{process_send, dispatch}
use kancho_net.Iocp.Control.{initialize, shutdown}
use kancho_net.Iocp.Sending.{Sends, send_or_post}
use kancho_net.Iocp.Sent.{Continued, process_send_continues}
use kancho_net.Iocp.Gone.{Gentle, second_failure_faults}
use kancho_net.Iocp.Lifecycle.{GivesSockets, IsUp, Ends, initialize_balances}
use kancho_net.Iocp.Down.{closed_sessions, shutdown_closes}

abbrev small : Kernel ℕ
small = record {
  create_socket = λ k. (some 7, k);
  bind = λ k fd port. (true, k);
  listen = λ k fd backlog. (true, k);
  accept = λ k fd. (no_more, k);
  recv = λ k fd n. (closed, k);
  send = λ k fd b. (would_block, k);
  epoll_create = λ k. (none, k);
  epoll_add = λ k fd mask w. (true, k);
  epoll_mod = λ k fd mask w. (true, k);
  epoll_del = λ k fd. (true, k);
  epoll_wait = λ k t. (events [], k);
  new_address = λ k. (4096 + k * 64, suc k);
}

abbrev seven : Windows ℕ
seven = record {
  startup = λ k. (true, k);
  cleanup = λ k. k;
  load_function = λ fd e k. (true, k);
  close_handle = λ h k. k;
  create_port = λ k. (some 5, k);
  associate = λ fd h p k. (true, k);
  accept_ex = λ l fd n c k. (true, k);
  wsa_recv = λ fd n c k. (true, k);
  wsa_send = λ fd b c k. (true, suc k);
  dequeue = λ h t k. (timed_out, k);
}

abbrev silent : App ℕ
silent = record { on_accept = none; on_receive = none; on_disconnect = none; on_error = none }

silent-Gentle : Gentle silent
silent-Gentle p s = (s.kernel_state, refl)

-- Three bytes are queued, and four more fit.
abbrev queue : Ring
queue = record {
  buffer = 0 ∷ 0 ∷ 5 ∷ 6 ∷ 7 ∷ 0 ∷ 0 ∷ 0 ∷ [];
  capacity = 8;
  read_pos = 2;
  write_pos = 5;
}

abbrev peer : Session
peer = record {
  id = 1;
  socket = 9;
  state = connected;
  send_buffer = queue;
  recv_buffer = queue;
  user_data = 0;
  is_sending = false;
  config = default_config;
  locked = false;
}

abbrev one_peer : Manager
one_peer = record {
  max_sessions = 2;
  next_session_id = 2;
  entries = record { id = 1; address = 4096; session = peer } ∷ [];
}

abbrev request : Types.IoOperation → Context
request operation = record {
  operation = operation;
  session = 4096;
  wsa_length = 3;
  buffer = 5 ∷ 6 ∷ 7 ∷ [];
  accept_socket = invalid_socket;
}

-- A receive at 12288 and a send at 16384 are under way.
abbrev up : Iocp ℕ
up = record {
  initialized = true;
  running = true;
  config = Config.defaults;
  listen_socket = 7;
  handle = record {
    handle = some 5;
    accept_ex_loaded = true;
    contexts =
        (12288, request Types.IoOperation.receive) ∷ (16384, request Types.IoOperation.send) ∷ [];
  };
  manager = some one_peer;
  socket_map = [];
  kernel_state = 1;
  log = [];
}

abbrev greeting : Packet
greeting = record { vector = record { elems = 1 ∷ 2 ∷ []; capacity = 16; block = 1 }; size = 2 }

up-Owns : Owns 4096 peer one_peer up
unfolding find deref
up-Owns = record { managed_by = refl; apart = (λ e. omega arith, refl, tt); entry = refl }

send_or_post_example : Sends small seven 4096 peer greeting up (send small seven 4096 greeting up)
unfolding Packet.is_empty
send_or_post_example =
    send_or_post small seven up-Owns (λ e. omega arith) refl (omega arith) (omega arith) refl
      (λ e. omega arith)

process_send_continues_example :
    Continued small seven 4096 peer 2 up
      (process_send small seven silent (request Types.IoOperation.send) 2 up)
process_send_continues_example =
    process_send_continues small seven silent (request Types.IoOperation.send) 2 up-Owns
      (λ e. omega arith) refl (omega arith) (λ e. omega arith)

second_failure_faults_example :
    (t : Iocp ℕ) × (dispatch small seven silent true 0 12288 [] up ≡ ok (tt, t))
    × (t.log ≡ [])
    × (dispatch small seven silent false 0 16384 [] t ≡ fault)
unfolding is_disconnected context_of
second_failure_faults_example =
    second_failure_faults small seven silent {x = peer} {m = one_peer} {s = up}
      {first = request Types.IoOperation.receive} {second = request Types.IoOperation.send} 12288
      16384 true false 0 0 [] [] silent-Gentle up-Owns refl (λ e. omega arith) refl refl refl refl
      refl (λ e. omega arith) (λ e. omega arith) refl refl

small-GivesSockets : GivesSockets small
small-GivesSockets k fd e = ground arith

-- A Windows where the accept with the context 4160 is completed by the first wait after it, without a byte, and a
-- receive with the context 12288, which another program state would lead to, with five.
abbrev roomless : Windows ℕ
roomless = record seven {
  accept_ex = λ l fd n c k. (c == 4160, 10);
  dequeue = λ h t k.
      if k == 10
      then (completed true 0 4160 [], 11)
      else if k == 20
      then (completed true 5 12288 (1 ∷ 2 ∷ 3 ∷ 4 ∷ 5 ∷ []), 21)
      else (timed_out, k);
}

abbrev IsThatAccept : ℕ → ℕ → Type 0
IsThatAccept k c = c ≡ 4160

-- A model that is up and does not run.
abbrev ready : Iocp ℕ
ready = record up {
  running = false;
  handle = record { handle = some 5; accept_ex_loaded = true; contexts = [] };
}

abbrev unmade : Iocp ℕ
unmade = record up {
  initialized = false;
  running = false;
  listen_socket = invalid_socket;
  handle = record { handle = none; accept_ex_loaded = false; contexts = [] };
  manager = none;
}

initialize_balances_example :
    (b : Bool) × (t : Iocp ℕ) × (initialize small seven Config.defaults unmade ≡ ok (b, t))
    × Ends small seven Config.defaults unmade b t
initialize_balances_example =
    initialize_balances small seven Config.defaults unmade small-GivesSockets

up-IsUp : IsUp up
up-IsUp = record {
  up = refl;
  port = 5;
  has_port = refl;
  loaded = refl;
  listener = λ e. omega arith;
}

shutdown_closes_example :
    (t : Iocp ℕ) × (shutdown small seven up ≡ ok (tt, t))
    × (t.initialized ≡ false)
    × (t.running ≡ false)
    × (t.manager ≡ some (record one_peer { entries = [] }))
    × (t.listen_socket ≡ invalid_socket)
    × (t.handle ≡ record up.handle { handle = none })
    × (t.log ≡ ends_network ∷ closes up-IsUp.port ∷ closes 7 ∷ closed_sessions one_peer.entries [])
unfolding deref
shutdown_closes_example =
    shutdown_closes small seven {s = up} {m = one_peer} up-IsUp refl (λ e. omega arith, refl, tt)
      (λ e. omega arith, tt)
