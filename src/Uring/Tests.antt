-- ===== src/Uring/Tests.antt =====
-- The theorems on KanchoNet/Network/IOUringModel at a small system.
use kancho_net.Common.{
  Bool, if◌then◌else◌, length, ℕ, suc, ◌+◌, ◌*◌, ◌<◌, ◌≤◌, ◌≡◌, refl, ◌⊎◌, true, false, [], ◌∷◌,
  none, some, arith,
}
use kancho_net.Types.{connected}
use kancho_net.Types
use kancho_net.Config
use kancho_net.Packet.{Packet}
use kancho_net.Packet
use kancho_net.Ring.{Ring, available_read, available_write}
use kancho_net.Session.{Session, default_config, is_disconnected}
use kancho_net.Manager.{Manager, find, deref}
use kancho_net.Net.{ok, fault, hang, Kernel, would_block, closed, no_more, events}
use kancho_net.Host.Access.{Owns}
use kancho_net.Uring.State.{Uring, App, Liburing, Context, returned, none_ready}
use kancho_net.Uring.Submit.{send}
use kancho_net.Uring.Control.{start_listen}
use kancho_net.Uring.Lifecycle.{NeverNull, start_listen_contexts}
use kancho_net.Uring.Complete.{process_send_completion}
use kancho_net.Uring.Gone.{Gentle}
use kancho_net.Uring.Sending.{Queued, send_or_hang}
use kancho_net.Uring.Sent.{Finished, process_send_completion_lem}

abbrev small : Kernel ℕ
small = record {
  create_socket = λ k. (some 7, k);
  bind = λ k fd port. (true, k);
  listen = λ k fd backlog. (true, k);
  accept = λ k fd. (no_more, k);
  recv = λ k fd n. (closed, k);
  send = λ k fd b. (would_block, k);
  epoll_create = λ k. (some 5, k);
  epoll_add = λ k fd mask w. (true, k);
  epoll_mod = λ k fd mask w. (true, k);
  epoll_del = λ k fd. (true, k);
  epoll_wait = λ k t. (events [], k);
  new_address = λ k. (4096 + k * 64, suc k);
}

abbrev quiet_ring : Liburing ℕ
quiet_ring = record {
  queue_init = λ n k. (true, k);
  queue_exit = λ k. k;
  get_sqe = λ k. (true, k);
  prepare = λ r c k. k;
  submit = λ k. (true, k);
  wait = λ t k. (none_ready, k);
  head = λ k. 0;
  entry = λ k i. none;
  cqe_seen = λ k. k;
  cq_advance = λ n k. k;
}

abbrev silent : App ℕ
silent = record { on_accept = none; on_receive = none; on_disconnect = none; on_error = none }

silent-Gentle : Gentle silent
silent-Gentle p s = (s, refl, refl)

-- Three bytes are queued, and four more fit.
abbrev queue : Ring
queue = record {
  buffer = 0 ∷ 0 ∷ 5 ∷ 6 ∷ 7 ∷ 0 ∷ 0 ∷ 0 ∷ [];
  capacity = 8;
  read_pos = 2;
  write_pos = 5;
}

abbrev peer : Session
peer = record {
  id = 1;
  socket = 9;
  state = connected;
  send_buffer = queue;
  recv_buffer = queue;
  user_data = 0;
  is_sending = false;
  config = default_config;
  locked = false;
}

abbrev one_peer : Manager
one_peer = record {
  max_sessions = 2;
  next_session_id = 2;
  entries = record { id = 1; address = 4096; session = peer } ∷ [];
}

abbrev up : Uring ℕ
up = record {
  initialized = true;
  running = true;
  config = Config.defaults;
  listen_socket = 7;
  handle = record { ring_initialized = true; supported = some true; contexts = [] };
  manager = some one_peer;
  socket_map = (9, 4096) ∷ [];
  kernel_state = 1;
  log = [];
}

abbrev greeting : Packet
greeting = record { vector = record { elems = 1 ∷ 2 ∷ []; capacity = 16; block = 1 }; size = 2 }

abbrev sending : Context
sending = record {
  operation = Types.IoOperation.send;
  session = 4096;
  buffer = some (5 ∷ 6 ∷ 7 ∷ []);
  buffer_size = 3;
}

up-Owns : Owns 4096 peer one_peer up
unfolding find deref
up-Owns = record { managed_by = refl; apart = (λ e. omega arith, refl, tt); entry = refl }

send_or_hang_example :
    ((available_write queue < 2)
      × Queued small quiet_ring silent 4096 peer greeting up false
          (send small quiet_ring silent 4096 greeting up))
    ⊎ ((2 ≤ available_write queue)
        × (false ≡ true)
        × Queued small quiet_ring silent 4096 peer greeting up true
            (send small quiet_ring silent 4096 greeting up))
    ⊎ ((2 ≤ available_write queue)
        × (false ≡ false)
        × (send small quiet_ring silent 4096 greeting up ≡ hang))
unfolding Packet.is_empty
send_or_hang_example =
    send_or_hang small quiet_ring silent up-Owns (λ e. omega arith) refl (omega arith) (omega arith)
      refl

process_send_completion_lem_example :
    let n : ℕ = 3 in
    let r = process_send_completion small quiet_ring silent sending (returned 3) up in
    ((n ≡ 0) × (r ≡ fault))
    ⊎ ((0 < 3) × (3 < available_read queue) × (r ≡ hang))
    ⊎ ((0 < 3) × (available_read queue ≤ 3) × Finished small quiet_ring silent 4096 up r)
unfolding is_disconnected
process_send_completion_lem_example =
    process_send_completion_lem small quiet_ring silent sending (returned 3) silent-Gentle up-Owns
      (λ e. omega arith) refl refl (omega arith)

small-NeverNull : NeverNull small
small-NeverNull k = λ e. omega arith

start_listen_contexts_example :
    (b : Bool) × (t : Uring ℕ) × (start_listen small quiet_ring silent
        (record up { running = false })
      ≡ ok (b, t))
    × (t.running ≡ b)
    × (t.initialized ≡ true)
    × (t.manager ≡ some one_peer)
    × (length t.handle.contexts ≡ 0 + (if b then 1 else 0))
start_listen_contexts_example =
    start_listen_contexts small quiet_ring silent (record up { running = false }) small-NeverNull
      refl refl
