-- ===== src/Epoll/Control.antt =====
-- KanchoNet/Network/EpollModel.cpp: `Initialize`, `StartListen` and `Shutdown`.
use kancho_net.Common.{ℕ, Bool, true, false, List, [], ◌∷◌, none, some, if◌then◌else◌}
use kancho_net.Types.{invalid_socket}
use kancho_net.Config.{Config}
use kancho_net.Manager.{Manager, Address, deref, modify}
use kancho_net.Manager
use kancho_net.Net.{ok, Kernel, union_data, for_input, opened, closes, watches}
use kancho_net.Host.{◌>>=◌, ◌>>◌, pure, update, act, the_manager, call}
use kancho_net.Epoll.State.{Run, App}
use kancho_net.Epoll.Sockets.{close_socket, close_session}

module _ {K : Type 0} (kernel : Kernel K) (app : App K) where
  -- `Initialize` once it has an epoll instance.
  unfoldable pub open_listener : Config → ℕ → Run K Bool
  open_listener config epoll = do
    act (opened epoll)
    listener ← call kernel.create_socket
    elim listener [
      | none ↦ (do
        update (λ s. record s { listen_socket = invalid_socket })
        act (closes epoll)
        pure false)
      | some socket ↦ (do
        act (opened socket)
        update (λ s. record s { listen_socket = socket })
        bound ← call (λ k. kernel.bind k socket config.port)
        if bound
            then (do
              update (λ s. record s {
                manager = some (Manager.create config.max_sessions);
                initialized = true;
              })
              pure true)
            else (do close_socket kernel app socket; act (closes epoll); pure false))
    ]

  -- `Initialize`. `InitializeNetwork` always succeeds here.
  unfoldable pub initialize : Config → Run K Bool
  initialize config s =
      if s.initialized
      then ok (false, s)
      else (do
        update (λ s. record s { config = config })
        made ← call kernel.epoll_create
        update (λ s. record s { handle = made })
        elim made [ none ↦ pure false | some epoll ↦ open_listener config epoll ])
          s

  unfoldable pub start_listen : Run K Bool
  start_listen s =
      if s.initialized
      then (if s.running
          then ok (true, s)
          else (do
            listening ← call (λ k. kernel.listen k s.listen_socket s.config.backlog)
            if listening
                then (do
                  added ← call (λ k.
                      kernel.epoll_add k s.listen_socket for_input (union_data 0 s.listen_socket))
                  act (watches s.listen_socket for_input)
                  if added
                      then (do update (λ s. record s { running = true }); pure true)
                      else pure false)
                else pure false)
              s)
      else ok (false, s)

  -- The walk of `Shutdown` over the sessions.
  unfoldable pub close_all : List Manager.Entry → Run K (Unit {0})
  close_all [] = pure tt
  close_all (e ∷ es) = do close_session kernel app e.address; close_all es

  unfoldable pub shutdown : Run K (Unit {0})
  shutdown s =
      if s.initialized
      then (do
        update (λ s. record s { running = false })
        elim s.manager [
          | none ↦ pure tt
          | some m ↦ (do
            close_all m.entries
            n ← the_manager
            update (λ s. record s { manager = some (Manager.clear n) }))
        ]
        update (λ s. record s { socket_map = [] })
        close_socket kernel app s.listen_socket
        update (λ s. record s { listen_socket = invalid_socket })
        elim s.handle [ none ↦ pure tt | some fd ↦ act (closes fd) ]
        update (λ s. record s { handle = none })
        update (λ s. record s { initialized = false }))
          s
      else ok (tt, s)
