-- ===== src/Engine/Tests.antt =====
-- The theorems on KanchoNet/Core/NetworkEngine at an engine over a small epoll model.
use kancho_net.Common.{
  ℕ, suc, ◌+◌, ◌*◌, ◌≡◌, refl, inl, Bool, true, false, List, [], ◌∷◌, ◌++◌, none, some, arith, leb,
  min, take,
}
use kancho_net.Types.{connected}
use kancho_net.Config
use kancho_net.Ring.{Ring, available_write}
use kancho_net.Ring.Contents.{contents}
use kancho_net.Session.{Session, default_config}
use kancho_net.Manager.{Manager, find, deref}
use kancho_net.Net.{ok, Kernel, would_block, closed, no_more, events}
use kancho_net.Epoll.State.{App}
use kancho_net.Host.Access.{Owns}
use kancho_net.Epoll.Lifecycle.{GivesSockets}
use kancho_net.Engine.{Engine, create, send_data}
use kancho_net.Engine.Phases.{Phase, down, Command, initializes, starts, stops, Walk, IsIn, act_all}
use kancho_net.Engine.OnEpoll.{Driven, epoll_network, IsIdle, IsReady, IsLive, epoll_engine_lem}
use kancho_net.Engine.Sends.{send_data_lem}

abbrev small : Kernel ℕ
small = record {
  create_socket = λ k. (some 7, k);
  bind = λ k fd port. (true, k);
  listen = λ k fd backlog. (true, k);
  accept = λ k fd. (no_more, k);
  recv = λ k fd n. (closed, k);
  send = λ k fd b. (would_block, k);
  epoll_create = λ k. (some 5, k);
  epoll_add = λ k fd mask w. (true, k);
  epoll_mod = λ k fd mask w. (true, k);
  epoll_del = λ k fd. (true, k);
  epoll_wait = λ k t. (events [], k);
  new_address = λ k. (4096 + k * 64, suc k);
}

abbrev silent : App ℕ
silent = record { on_accept = none; on_receive = none; on_disconnect = none; on_error = none }

small-GivesSockets : GivesSockets small
small-GivesSockets k fd e = ground arith

-- A model that has just been made.
abbrev fresh : Driven ℕ
fresh = (
  false,
  record {
    initialized = false;
    running = false;
    config = Config.defaults;
    listen_socket = 4294967295;
    handle = none;
    manager = none;
    socket_map = [];
    kernel_state = 0;
    log = [];
  },
)

abbrev script : List Command
script = starts ∷ initializes Config.defaults ∷ stops ∷ starts ∷ starts ∷ stops ∷ []

fresh-IsIn :
    IsIn
      (epoll_network small silent 10)
      (IsIdle small silent 10)
      (IsReady small silent 10)
      (IsLive small silent 10)
      down
      (create (epoll_network small silent 10) fresh)
unfolding create
fresh-IsIn =
    (refl, refl, record { sound = record { running_up = inl refl; up = inl refl }; not_up = refl })

epoll_engine_lem_example :
    (bs : List Bool) × (e' : Engine (Driven ℕ)) × (q : Phase) × (act_all
        (epoll_network small silent 10)
        script
        (create (epoll_network small silent 10) fresh)
      ≡ ok (bs, e'))
    × IsIn
        (epoll_network small silent 10)
        (IsIdle small silent 10)
        (IsReady small silent 10)
        (IsLive small silent 10)
        q
        e'
    × Walk down script bs q
epoll_engine_lem_example =
    epoll_engine_lem small silent 10 down script (create (epoll_network small silent 10) fresh)
      small-GivesSockets fresh-IsIn

-- Three bytes are queued, and four more fit.
abbrev queue : Ring
queue = record {
  buffer = 0 ∷ 0 ∷ 5 ∷ 6 ∷ 7 ∷ 0 ∷ 0 ∷ 0 ∷ [];
  capacity = 8;
  read_pos = 2;
  write_pos = 5;
}

abbrev peer : Session
peer = record {
  id = 1;
  socket = 9;
  state = connected;
  send_buffer = queue;
  recv_buffer = queue;
  user_data = 0;
  is_sending = false;
  config = default_config;
  locked = false;
}

abbrev one_peer : Manager
one_peer = record {
  max_sessions = 2;
  next_session_id = 2;
  entries = record { id = 1; address = 4096; session = peer } ∷ [];
}

abbrev serving : Engine (Driven ℕ)
serving = record {
  initialized = true;
  running = true;
  config = Config.defaults;
  model = (
    true,
    record {
      initialized = true;
      running = true;
      config = Config.defaults;
      listen_socket = 7;
      handle = some 5;
      manager = some one_peer;
      socket_map = (9, 4096) ∷ [];
      kernel_state = 1;
      log = [];
    },
  );
}

serving-Owns : Owns 4096 peer one_peer serving.model.1
unfolding find deref
serving-Owns = record { managed_by = refl; apart = (λ e. omega arith, refl, tt); entry = refl }

send_data_lem_example :
    (e' : Engine (Driven ℕ)) × (y : Session) × (n : Manager) × (send_data
        (epoll_network small silent 10)
        4096
        (some (1 ∷ 2 ∷ 3 ∷ []))
        2
        serving
      ≡ ok (leb 2 (available_write queue), e'))
    × (e'.running ≡ true)
    × Owns 4096 y n e'.model.1
    × (contents y.send_buffer ≡ contents queue ++ take (min 2 (available_write queue)) (1 ∷ 2 ∷ []))
send_data_lem_example =
    send_data_lem small silent 10 serving (1 ∷ 2 ∷ 3 ∷ []) 2 refl serving-Owns (λ e. omega arith)
      refl (omega arith) (omega arith) (omega arith) (omega arith)
