-- ===== src/Engine/IocpTests.antt =====
-- The theorem on KanchoNet/Core/NetworkEngine at an engine over a small IOCP model.
use kancho_net.Common.{
  ℕ, suc, ◌+◌, ◌*◌, ◌≡◌, refl, Bool, true, false, List, [], ◌∷◌, none, some, arith,
}
use kancho_net.Config
use kancho_net.Net.{ok, Kernel, would_block, closed, no_more, events}
use kancho_net.Windows.{Windows, timed_out, invalid_socket}
use kancho_net.Iocp.State.{App}
use kancho_net.Iocp.Lifecycle.{GivesSockets}
use kancho_net.Iocp.Listen.{NeverNull}
use kancho_net.Engine.{Engine, create}
use kancho_net.Engine.Phases.{Phase, down, Command, initializes, starts, stops, Walk, IsIn, act_all}
use kancho_net.Engine.OnIocp.{Driven, iocp_network, IsIdle, IsReady, IsLive, iocp_engine_lem}

abbrev small : Kernel ℕ
small = record {
  create_socket = λ k. (some 7, k);
  bind = λ k fd port. (true, k);
  listen = λ k fd backlog. (true, k);
  accept = λ k fd. (no_more, k);
  recv = λ k fd n. (closed, k);
  send = λ k fd b. (would_block, k);
  epoll_create = λ k. (some 5, k);
  epoll_add = λ k fd mask w. (true, k);
  epoll_mod = λ k fd mask w. (true, k);
  epoll_del = λ k fd. (true, k);
  epoll_wait = λ k t. (events [], k);
  new_address = λ k. (4096 + k * 64, suc k);
}

abbrev port : Windows ℕ
port = record {
  startup = λ k. (true, k);
  cleanup = λ k. k;
  load_function = λ fd e k. (true, k);
  close_handle = λ h k. k;
  create_port = λ k. (some 5, k);
  associate = λ fd h p k. (true, k);
  accept_ex = λ l fd n c k. (true, k);
  wsa_recv = λ fd n c k. (true, k);
  wsa_send = λ fd b c k. (true, k);
  dequeue = λ h t k. (timed_out, k);
}

abbrev silent : App ℕ
silent = record { on_accept = none; on_receive = none; on_disconnect = none; on_error = none }

small-GivesSockets : GivesSockets small
small-GivesSockets k fd e = ground arith

small-NeverNull : NeverNull small
small-NeverNull k = λ e. omega arith

-- A model that has just been made.
abbrev fresh : Driven ℕ
fresh = (
  false,
  record {
    initialized = false;
    running = false;
    config = Config.defaults;
    listen_socket = invalid_socket;
    handle = record { handle = none; accept_ex_loaded = false; contexts = [] };
    manager = none;
    socket_map = [];
    kernel_state = 0;
    log = [];
  },
)

abbrev script : List Command
script = starts ∷ initializes Config.defaults ∷ stops ∷ starts ∷ starts ∷ stops ∷ []

fresh-IsIn :
    IsIn
      (iocp_network small port silent)
      (IsIdle small port silent)
      (IsReady small port silent)
      (IsLive small port silent)
      down
      (create (iocp_network small port silent) fresh)
unfolding create
fresh-IsIn = (refl, refl, record { not_up = refl; not_running = refl })

iocp_engine_lem_example :
    (bs : List Bool) × (e' : Engine (Driven ℕ)) × (q : Phase) × (act_all
        (iocp_network small port silent)
        script
        (create (iocp_network small port silent) fresh)
      ≡ ok (bs, e'))
    × IsIn
        (iocp_network small port silent)
        (IsIdle small port silent)
        (IsReady small port silent)
        (IsLive small port silent)
        q
        e'
    × Walk down script bs q
iocp_engine_lem_example =
    iocp_engine_lem small port silent down script (create (iocp_network small port silent) fresh)
      small-GivesSockets small-NeverNull fresh-IsIn
