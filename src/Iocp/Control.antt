-- ===== src/Iocp/Control.antt =====
-- KanchoNet/Network/IOCPModel.cpp: `Initialize`, `StartListen` and `Shutdown`.
use kancho_net.Common.{Bool, true, false, List, [], ◌∷◌, none, some, if◌then◌else◌, not, ◌==◌}
use kancho_net.Types.{Socket}
use kancho_net.Config.{Config}
use kancho_net.Manager
use kancho_net.Net.{ok, Kernel, opened}
use kancho_net.Host.{◌>>=◌, ◌>>◌, pure, update, act, call, the_manager}
use kancho_net.Windows.{
  Windows, accept_ex, connect_ex, disconnect_ex, get_accept_ex_sockaddrs, invalid_socket,
  initialize_network, cleanup_network, close_handle, create_tcp_socket, close_socket,
}
use kancho_net.Iocp.State.{Run}
use kancho_net.Iocp.Post.{register_accept, close_session}

module _ {K : Type 0} (kernel : Kernel K) (windows : Windows K) where
  -- `SocketUtils::LoadExtensionFunctions`
  unfoldable pub load_extension_functions : Socket → Run K Bool
  load_extension_functions socket = do
    accepting ← call (windows.load_function socket accept_ex)
    if not accepting then pure false else (do
      update (λ s. record s { handle = record s.handle { accept_ex_loaded = true } })
      connecting ← call (windows.load_function socket connect_ex)
      if not connecting then pure false else (do
        disconnecting ← call (windows.load_function socket disconnect_ex)
        if not disconnecting
            then pure false
            else call (windows.load_function socket get_accept_ex_sockaddrs)))

  -- `CreateIOCP`
  unfoldable pub create_iocp : Run K Bool
  create_iocp = do
    made ← call windows.create_port
    update (λ s. record s { handle = record s.handle { handle = made } })
    elim made [ none ↦ pure false | some port ↦ (do act (opened port); pure true) ]

  -- `CloseHandle(mIocpHandle)`
  unfoldable pub close_port : Run K (Unit {0})
  close_port s = elim s.handle.handle [
    | none ↦ ok (tt, s)
    | some port ↦ close_handle windows port s
  ]

  -- The way out of `Initialize` once the listening socket stands.
  unfoldable pub give_up : Socket → Run K Bool
  give_up socket = do close_socket socket; close_port; cleanup_network windows; pure false

  -- The rest of `Initialize` with a listening socket.
  unfoldable pub bring_up : Config → Socket → Run K Bool
  bring_up config socket = do
    loaded ← load_extension_functions socket
    if not loaded then give_up socket else (do
      bound ← call (λ k. kernel.bind k socket config.port)
      if not bound then give_up socket else (do
        update (λ s. record s {
          manager = some (Manager.create config.max_sessions);
          initialized = true;
        })
        pure true))

  -- The rest of `Initialize` with a port.
  unfoldable pub open_listener : Config → Run K Bool
  open_listener config = do
    socket ← create_tcp_socket kernel
    update (λ s. record s { listen_socket = socket })
    if socket == invalid_socket
        then (do close_port; cleanup_network windows; pure false)
        else bring_up config socket

  unfoldable pub initialize : Config → Run K Bool
  initialize config s =
      if s.initialized
      then ok (false, s)
      else (do
        update (λ s. record s { config = config })
        started ← initialize_network windows
        if not started then pure false else (do
          made ← create_iocp
          if not made then (do cleanup_network windows; pure false) else open_listener config))
          s

  unfoldable pub start_listen : Run K Bool
  start_listen s =
      if s.initialized
      then (if s.running
          then ok (true, s)
          else (do
            listening ← call (λ k. kernel.listen k s.listen_socket s.config.backlog)
            if not listening then pure false else (do
              associated ← call (windows.associate s.listen_socket s.handle.handle 0)
              if not associated then pure false else (do
                registered ← register_accept kernel windows
                if not registered
                    then pure false
                    else (do update (λ s. record s { running = true }); pure true))))
              s)
      else ok (false, s)

  -- The walk of `Shutdown` over the sessions.
  unfoldable pub close_all : List Manager.Entry → Run K (Unit {0})
  close_all [] = pure tt
  close_all (e ∷ es) = do close_session e.address; close_all es

  unfoldable pub shutdown : Run K (Unit {0})
  shutdown s =
      if s.initialized
      then (do
        update (λ s. record s { running = false })
        elim s.manager [
          | none ↦ pure tt
          | some m ↦ (do
            close_all m.entries
            n ← the_manager
            update (λ s. record s { manager = some (Manager.clear n) }))
        ]
        close_socket s.listen_socket
        update (λ s. record s { listen_socket = invalid_socket })
        close_port
        update (λ s. record s { handle = record s.handle { handle = none } })
        cleanup_network windows
        update (λ s. record s { initialized = false }))
          s
      else ok (tt, s)
