-- ===== src/Uring/Control.antt =====
-- KanchoNet/Network/IOUringModel.cpp: `Initialize`, `StartListen` and `Shutdown`.
use kancho_net.Common.{ℕ, Bool, true, false, List, [], ◌∷◌, none, some, if◌then◌else◌, not}
use kancho_net.Types.{invalid_socket}
use kancho_net.Config.{Config}
use kancho_net.Manager
use kancho_net.Net.{ok, Kernel, opened}
use kancho_net.Host.{◌>>=◌, ◌>>◌, pure, update, act, call, the_manager}
use kancho_net.Uring.State.{Run, App, Liburing}
use kancho_net.Uring.Sockets.{close_socket, close_session}
use kancho_net.Uring.Submit.{submit_accept}

module _ {K : Type 0} (kernel : Kernel K) (lib : Liburing K) (app : App K) where
  -- `IsIOUringSupported`, which tries once and remembers.
  unfoldable pub is_supported : Run K Bool
  is_supported s = elim s.handle.supported [
    | some b ↦ ok (b, s)
    | none ↦
        (do
          made ← call (lib.queue_init 8)
          if made then call (λ k. (tt, lib.queue_exit k)) else pure tt
          update (λ s. record s { handle = record s.handle { supported = some made } })
          pure made)
          s
  ]

  unfoldable pub create_ring : Run K Bool
  create_ring = do
    made ← call (lib.queue_init 256)
    if made
        then (do
          update (λ s. record s { handle = record s.handle { ring_initialized = true } })
          pure true)
        else pure false

  abbrev report : ℕ → Run K (Unit {0})
  report code = elim app.on_error [ none ↦ pure tt | some f ↦ f 0 code ]

  -- `Initialize`. `InitializeNetwork` always succeeds on Linux.
  unfoldable pub initialize : Config → Run K Bool
  initialize config s =
      if s.initialized
      then ok (false, s)
      else (do
        supported ← is_supported
        if not supported then (do report 5200; pure false) else (do
          update (λ s. record s { config = config })
          made ← create_ring
          if not made then pure false else (do
            listener ← call kernel.create_socket
            elim listener [
              | none ↦ (do
                update (λ s. record s { listen_socket = invalid_socket })
                call (λ k. (tt, lib.queue_exit k))
                pure false)
              | some socket ↦ (do
                act (opened socket)
                update (λ s. record s { listen_socket = socket })
                bound ← call (λ k. kernel.bind k socket config.port)
                if bound
                    then (do
                      update (λ s. record s {
                        manager = some (Manager.create config.max_sessions);
                        initialized = true;
                      })
                      pure true)
                    else (do
                      close_socket app socket
                      call (λ k. (tt, lib.queue_exit k))
                      pure false))
            ])))
          s

  unfoldable pub start_listen : Run K Bool
  start_listen s =
      if s.initialized
      then (if s.running
          then ok (true, s)
          else (do
            listening ← call (λ k. kernel.listen k s.listen_socket s.config.backlog)
            if listening
                then (do
                  submitted ← submit_accept kernel lib app
                  if submitted
                      then (do update (λ s. record s { running = true }); pure true)
                      else pure false)
                else pure false)
              s)
      else ok (false, s)

  -- The walk of `Shutdown` over the sessions.
  unfoldable pub close_all : List Manager.Entry → Run K (Unit {0})
  close_all [] = pure tt
  close_all (e ∷ es) = do close_session app e.address; close_all es

  unfoldable pub shutdown : Run K (Unit {0})
  shutdown s =
      if s.initialized
      then (do
        update (λ s. record s { running = false })
        elim s.manager [
          | none ↦ pure tt
          | some m ↦ (do
            close_all m.entries
            n ← the_manager
            update (λ s. record s { manager = some (Manager.clear n) }))
        ]
        update (λ s. record s { socket_map = [] })
        close_socket app s.listen_socket
        update (λ s. record s { listen_socket = invalid_socket })
        if s.handle.ring_initialized
            then (do
              call (λ k. (tt, lib.queue_exit k))
              update (λ s. record s { handle = record s.handle { ring_initialized = false } }))
            else pure tt
        update (λ s. record s { initialized = false }))
          s
      else ok (tt, s)
