-- ===== src/Echo/Tests.antt =====
-- The theorem on Examples/EchoServer at an engine over a small epoll model.
use kancho_net.Common.{
  ℕ, suc, ◌+◌, ◌*◌, ◌≡◌, refl, true, false, [], ◌∷◌, ◌++◌, none, some, arith, min, take,
}
use kancho_net.Types.{connected}
use kancho_net.Config
use kancho_net.Ring.{Ring, available_write}
use kancho_net.Ring.Contents.{contents}
use kancho_net.Session.{Session, default_config}
use kancho_net.Manager.{Manager, find, deref}
use kancho_net.Net.{ok, Kernel, would_block, closed, no_more, events}
use kancho_net.Epoll.State.{App}
use kancho_net.Host.Access.{Owns}
use kancho_net.Engine.{Engine}
use kancho_net.Engine.OnEpoll.{Driven, epoll_network}
use kancho_net.Echo.{on_receive}
use kancho_net.Echo.Queued.{session_of, echo_queues}

abbrev small : Kernel ℕ
small = record {
  create_socket = λ k. (some 7, k);
  bind = λ k fd port. (true, k);
  listen = λ k fd backlog. (true, k);
  accept = λ k fd. (no_more, k);
  recv = λ k fd n. (closed, k);
  send = λ k fd b. (would_block, k);
  epoll_create = λ k. (some 5, k);
  epoll_add = λ k fd mask w. (true, k);
  epoll_mod = λ k fd mask w. (true, k);
  epoll_del = λ k fd. (true, k);
  epoll_wait = λ k t. (events [], k);
  new_address = λ k. (4096 + k * 64, suc k);
}

abbrev silent : App ℕ
silent = record { on_accept = none; on_receive = none; on_disconnect = none; on_error = none }

-- Three bytes are queued, and four more fit.
abbrev queue : Ring
queue = record {
  buffer = 0 ∷ 0 ∷ 5 ∷ 6 ∷ 7 ∷ 0 ∷ 0 ∷ 0 ∷ [];
  capacity = 8;
  read_pos = 2;
  write_pos = 5;
}

abbrev peer : Session
peer = record {
  id = 1;
  socket = 9;
  state = connected;
  send_buffer = queue;
  recv_buffer = queue;
  user_data = 0;
  is_sending = false;
  config = default_config;
  locked = false;
}

abbrev one_peer : Manager
one_peer = record {
  max_sessions = 2;
  next_session_id = 2;
  entries = record { id = 1; address = 4096; session = peer } ∷ [];
}

abbrev serving : Engine (Driven ℕ)
serving = record {
  initialized = true;
  running = true;
  config = Config.defaults;
  model = (
    true,
    record {
      initialized = true;
      running = true;
      config = Config.defaults;
      listen_socket = 7;
      handle = some 5;
      manager = some one_peer;
      socket_map = (9, 4096) ∷ [];
      kernel_state = 1;
      log = [];
    },
  );
}

serving-Owns : Owns 4096 peer one_peer serving.model.1
unfolding find deref
serving-Owns = record { managed_by = refl; apart = (λ e. omega arith, refl, tt); entry = refl }

echo_queues_example :
    (e' : Engine (Driven ℕ)) × (y : Session) × (n : Manager) × (on_receive
        (epoll_network small silent 10)
        session_of
        4096
        (1 ∷ 2 ∷ 3 ∷ [])
        2
        serving
      ≡ ok (tt, e'))
    × (e'.running ≡ true)
    × Owns 4096 y n e'.model.1
    × (contents y.send_buffer ≡ contents queue ++ take (min 2 (available_write queue)) (1 ∷ 2 ∷ []))
echo_queues_example =
    echo_queues small silent 10 serving (1 ∷ 2 ∷ 3 ∷ []) 2 refl serving-Owns (λ e. omega arith) refl
      (omega arith) (omega arith) (omega arith) (omega arith)
