-- ===== src/Rio/Control.antt =====
-- KanchoNet/Network/RIOModel.cpp: `Initialize`, `StartListen` and `Shutdown`.
use kancho_net.Common.{Bool, true, false, List, [], ◌∷◌, none, some, not, ◌==◌, if◌then◌else◌}
use kancho_net.Types.{Socket}
use kancho_net.Config.{Config}
use kancho_net.Manager
use kancho_net.Net.{ok, Kernel, opened, closes}
use kancho_net.Host.{◌>>=◌, ◌>>◌, pure, update, act, call, the_manager}
use kancho_net.Windows.{
  Windows, invalid_socket, initialize_network, cleanup_network, create_tcp_socket, close_socket,
}
use kancho_net.Rio.State.{Run, App, Library, with_handle, rio}
use kancho_net.Rio.Buffers.{receiving, sending, register_buffer, deregister_buffer}
use kancho_net.Rio.Post.{close_session}

module _ {K : Type 0} (kernel : Kernel K) (windows : Windows K) (library : Library K)
    (app : App K) where
  -- `IsRIOSupported`, which asks once and remembers.
  unfoldable pub is_supported : Run K Bool
  is_supported s = elim s.handle.supported [
    | some b ↦ ok (b, s)
    | none ↦
        (do
          new_enough ← call library.verify_version
          update (with_handle (λ h. record h { supported = some new_enough }))
          pure new_enough)
          s
  ]

  -- `LoadRIOFunctions`
  unfoldable pub load_functions : Run K Bool
  load_functions s =
      (do
        got ← call (library.load_table s.listen_socket)
        if got then update (with_handle (λ h. record h { loaded = true })) else pure tt
        pure got)
        s

  unfoldable pub register_both : Config → Run K Bool
  register_both config = do
    receives ←
        register_buffer kernel library receiving config.recv_buffer_size
          config.rio_receive_buffer_count
    if not receives then pure false else (do
      sends ←
          register_buffer kernel library sending config.send_buffer_size
            config.rio_send_buffer_count
      if not sends then (do deregister_buffer library receiving; pure false) else pure true)

  -- `CreateRIOResources`
  unfoldable pub create_resources : Config → Run K Bool
  create_resources config = do
    event ← call library.create_event
    update (with_handle (λ h. record h { event = event }))
    elim event [ none ↦ pure tt | some e ↦ act (opened e) ]
    queue ← rio (library.create_queue config.rio_cq_size event)
    update (with_handle (λ h. record h { queue = queue }))
    elim queue [ none ↦ pure false | some q ↦ (do act (opened q); register_both config) ]

  unfoldable pub give_up : Socket → Run K Bool
  give_up socket = do close_socket socket; cleanup_network windows; pure false

  -- The rest of `Initialize` with a listening socket.
  unfoldable pub bring_up : Config → Socket → Run K Bool
  bring_up config socket = do
    loaded ← load_functions
    if not loaded then give_up socket else (do
      made ← create_resources config
      if not made then give_up socket else (do
        bound ← call (λ k. kernel.bind k socket config.port)
        if not bound
            then (do
              deregister_buffer library receiving
              deregister_buffer library sending
              give_up socket)
            else (do
              update (λ s. record s {
                manager = some (Manager.create config.max_sessions);
                initialized = true;
              })
              pure true)))

  unfoldable pub initialize : Config → Run K Bool
  initialize config s =
      if s.initialized
      then ok (false, s)
      else (do
        update (λ s. record s { config = config })
        supported ← is_supported
        if not supported
            then (do elim app.on_error [ none ↦ pure tt | some f ↦ f 0 5000 ]; pure false)
            else (do
              started ← initialize_network windows
              if not started then pure false else (do
                socket ← create_tcp_socket kernel
                update (λ s. record s { listen_socket = socket })
                if socket == invalid_socket
                    then (do cleanup_network windows; pure false)
                    else bring_up config socket)))
          s

  unfoldable pub start_listen : Run K Bool
  start_listen s =
      if s.initialized
      then (if s.running
          then ok (true, s)
          else (do
            listening ← call (λ k. kernel.listen k s.listen_socket s.config.backlog)
            if listening
                then (do update (λ s. record s { running = true }); pure true)
                else pure false)
              s)
      else ok (false, s)

  -- The walk of `Shutdown` over the sessions.
  unfoldable pub close_all : List Manager.Entry → Run K (Unit {0})
  close_all [] = pure tt
  close_all (e ∷ es) = do close_session e.address; close_all es

  unfoldable pub close_queue : Run K (Unit {0})
  close_queue s = elim s.handle.queue [
    | none ↦ ok (tt, s)
    | some q ↦
        (do
          rio (λ k. (tt, library.close_queue q k))
          act (closes q)
          update (with_handle (λ h. record h { queue = none })))
          s
  ]

  unfoldable pub shutdown : Run K (Unit {0})
  shutdown s =
      if s.initialized
      then (do
        update (λ s. record s { running = false })
        elim s.manager [
          | none ↦ pure tt
          | some m ↦ (do
            close_all m.entries
            n ← the_manager
            update (λ s. record s { manager = some (Manager.clear n) }))
        ]
        close_queue
        deregister_buffer library receiving
        deregister_buffer library sending
        close_socket s.listen_socket
        update (λ s. record s { listen_socket = invalid_socket })
        cleanup_network windows
        update (λ s. record s { initialized = false }))
          s
      else ok (tt, s)
