-- ===== src/Epoll/Sockets.antt =====
-- KanchoNet/Network/EpollModel.cpp: registering sockets, and the ends of a session.
use kancho_net.Common.{ℕ, Bool, false, Option, none, some, ◌==◌, if◌then◌else◌}
use kancho_net.Types.{Socket, invalid_socket, disconnected}
use kancho_net.Session.{is_disconnected, set_state}
use kancho_net.Manager.{Manager, Address, deref, modify}
use kancho_net.Manager
use kancho_net.Net.{ok, Kernel, union_data, shut, closes, watches, rewatches, unwatches}
use kancho_net.Host.{
  ◌>>=◌, ◌>>◌, pure, update, act, lookup, forget, the_manager, session_at, change_session, call,
}
use kancho_net.Epoll.State.{Run, App}

module _ {K : Type 0} (kernel : Kernel K) (app : App K) where
  abbrev pub invoke : Option (Address → Run K (Unit {0})) → Address → Run K (Unit {0})
  invoke none p = pure tt
  invoke (some f) p = f p

  unfoldable pub register_socket : Socket → Address → ℕ → Run K Bool
  register_socket socket p mask = do
    added ← call (λ k. kernel.epoll_add k socket mask (union_data p socket))
    act (watches socket mask)
    pure added

  unfoldable pub modify_socket : Socket → ℕ → Run K Bool
  modify_socket socket mask s = elim (lookup socket s.socket_map) [
    | none ↦ ok (false, s)
    | some p ↦
        (do
          done ← call (λ k. kernel.epoll_mod k socket mask (union_data p socket))
          act (rewatches socket mask)
          pure done)
          s
  ]

  unfoldable pub unregister_socket : Socket → Run K Bool
  unregister_socket socket = do
    done ← call (λ k. kernel.epoll_del k socket)
    act (unwatches socket)
    pure done

  -- `SocketUtils::CloseSocket` and `SocketUtils::ShutdownSocket`
  unfoldable pub close_socket : Socket → Run K (Unit {0})
  close_socket socket = if socket == invalid_socket then pure tt else act (closes socket)

  unfoldable pub shutdown_socket : Socket → Run K (Unit {0})
  shutdown_socket socket = if socket == invalid_socket then pure tt else act (shut socket)

  unfoldable pub process_disconnect : Address → Run K (Unit {0})
  process_disconnect p = if p == 0 then pure tt else (do
    x ← session_at p
    if is_disconnected x then pure tt else do
      change_session p (set_state disconnected)
      invoke app.on_disconnect p
      y ← session_at p
      update (λ s. record s { socket_map = forget y.socket s.socket_map })
      unregister_socket y.socket
      close_socket y.socket
      z ← session_at p
      m ← the_manager
      update (λ s. record s { manager = some (Manager.remove_session m z.id).1 }))

  unfoldable pub close_session : Address → Run K (Unit {0})
  close_session p = if p == 0 then pure tt else (do
    x ← session_at p
    update (λ s. record s { socket_map = forget x.socket s.socket_map })
    unregister_socket x.socket
    shutdown_socket x.socket
    close_socket x.socket)
