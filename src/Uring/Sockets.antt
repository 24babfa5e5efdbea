-- ===== src/Uring/Sockets.antt =====
-- KanchoNet/Network/IOUringModel.cpp: the ends of a session.
use kancho_net.Common.{Option, none, some, ◌==◌, if◌then◌else◌}
use kancho_net.Types.{Socket, invalid_socket, disconnected}
use kancho_net.Session.{is_disconnected, set_state}
use kancho_net.Manager.{Address}
use kancho_net.Manager
use kancho_net.Net.{shut, closes}
use kancho_net.Host.{
  ◌>>=◌, ◌>>◌, pure, update, act, forget, the_manager, session_at, change_session,
}
use kancho_net.Uring.State.{Run, App}

module _ {K : Type 0} (app : App K) where
  abbrev pub invoke : Option (Address → Run K (Unit {0})) → Address → Run K (Unit {0})
  invoke none p = pure tt
  invoke (some f) p = f p

  unfoldable pub close_socket : Socket → Run K (Unit {0})
  close_socket socket = if socket == invalid_socket then pure tt else act (closes socket)

  unfoldable pub shutdown_socket : Socket → Run K (Unit {0})
  shutdown_socket socket = if socket == invalid_socket then pure tt else act (shut socket)

  unfoldable pub process_disconnect : Address → Run K (Unit {0})
  process_disconnect p = if p == 0 then pure tt else (do
    x ← session_at p
    if is_disconnected x then pure tt else do
      change_session p (set_state disconnected)
      invoke app.on_disconnect p
      y ← session_at p
      update (λ s. record s { socket_map = forget y.socket s.socket_map })
      close_socket y.socket
      z ← session_at p
      m ← the_manager
      update (λ s. record s { manager = some (Manager.remove_session m z.id).1 }))

  unfoldable pub close_session : Address → Run K (Unit {0})
  close_session p = if p == 0 then pure tt else (do
    x ← session_at p
    update (λ s. record s { socket_map = forget x.socket s.socket_map })
    shutdown_socket x.socket
    close_socket x.socket)
