-- ===== src/Rio/Tests.antt =====
-- The theorems on KanchoNet/Network/RIOModel at a small system.
use kancho_net.Common.{ℕ, suc, ◌+◌, ◌*◌, ◌%◌, ◌^◌, refl, true, false, [], ◌∷◌, none, some, arith}
use kancho_net.Types.{connected}
use kancho_net.Config
use kancho_net.Packet.{Packet}
use kancho_net.Packet
use kancho_net.Ring.{Ring, available_write, available_read}
use kancho_net.Session.{Session, default_config}
use kancho_net.Manager.{Manager, find, deref}
use kancho_net.Net.{Kernel, would_block, closed, no_more, events}
use kancho_net.Host.Access.{Owns}
use kancho_net.Rio.State.{Rio, BufferInfo, Library, results, timed_out}
use kancho_net.Rio.Buffers.{receiving, register_buffer}
use kancho_net.Rio.Post.{send}
use kancho_net.Rio.Registration.{Restored, register-deregister}
use kancho_net.Rio.Sends.{Kept, send_only_queues}

abbrev small : Kernel ℕ
small = record {
  create_socket = λ k. (some 7, k);
  bind = λ k fd port. (true, k);
  listen = λ k fd backlog. (true, k);
  accept = λ k fd. (no_more, k);
  recv = λ k fd n. (closed, k);
  send = λ k fd b. (would_block, k);
  epoll_create = λ k. (none, k);
  epoll_add = λ k fd mask w. (true, k);
  epoll_mod = λ k fd mask w. (true, k);
  epoll_del = λ k fd. (true, k);
  epoll_wait = λ k t. (events [], k);
  new_address = λ k. (4096 + k * 64, suc k);
}

-- The completion queue is empty for ever.
abbrev empty_queue : Library ℕ
empty_queue = record {
  verify_version = λ k. (true, k);
  load_table = λ fd k. (true, k);
  create_event = λ k. (some 3, k);
  create_queue = λ n e k. (some 4, k);
  close_queue = λ q k. k;
  register_buffer = λ a n k. (17, k);
  deregister_buffer = λ i k. k;
  count_ready = λ q k. (some 0, k);
  dequeue = λ q n k. (results [], k);
  wait = λ e t k. (timed_out, k);
  notify = λ q k. k;
}

-- Three bytes are queued, and four more fit.
abbrev queue : Ring
queue = record {
  buffer = 0 ∷ 0 ∷ 5 ∷ 6 ∷ 7 ∷ 0 ∷ 0 ∷ 0 ∷ [];
  capacity = 8;
  read_pos = 2;
  write_pos = 5;
}

abbrev peer : Session
peer = record {
  id = 1;
  socket = 9;
  state = connected;
  send_buffer = queue;
  recv_buffer = queue;
  user_data = 0;
  is_sending = false;
  config = default_config;
  locked = false;
}

abbrev one_peer : Manager
one_peer = record {
  max_sessions = 2;
  next_session_id = 2;
  entries = record { id = 1; address = 4096; session = peer } ∷ [];
}

-- The constructor clears the two records.
abbrev cleared : BufferInfo
cleared = record { id = 0; buffer = 0; buffer_size = 0; buffer_count = 0 }

abbrev up : Rio ℕ
up = record {
  initialized = true;
  running = true;
  config = Config.defaults;
  listen_socket = 7;
  handle = record {
    supported = some true;
    loaded = true;
    queue = some 4;
    event = some 3;
    receive_info = cleared;
    send_info = cleared;
    arrays = [];
    contexts = [];
  };
  manager = some one_peer;
  socket_map = [];
  kernel_state = 1;
  log = [];
}

abbrev greeting : Packet
greeting = record { vector = record { elems = 1 ∷ 2 ∷ []; capacity = 16; block = 1 }; size = 2 }

up-Owns : Owns 4096 peer one_peer up
unfolding find deref
up-Owns = record { managed_by = refl; apart = (λ e. omega arith, refl, tt); entry = refl }

register-deregister_example :
    Restored empty_queue receiving
      (4096 + 1 * 64)
      (65536 * 1024 % 2 ^ 64)
      17
      2
      up
      (register_buffer small empty_queue receiving 65536 1024 up)
register-deregister_example =
    register-deregister small empty_queue receiving 65536 1024 up refl (λ e. omega arith)

send_only_queues_example : Kept 4096 peer greeting up true (send 4096 greeting up)
unfolding Packet.is_empty available_write available_read
send_only_queues_example =
    send_only_queues up-Owns (λ e. omega arith) refl (omega arith) (omega arith) refl
