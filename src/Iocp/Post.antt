-- ===== src/Iocp/Post.antt =====
-- KanchoNet/Network/IOCPModel.cpp: the requests that are posted, the ends of a session, and `Send`.
use kancho_net.Common.{Bool, true, false, ◌||◌, Option, none, some, ◌==◌, ltb, if◌then◌else◌, take}
use kancho_net.Types.{default_buffer_size, disconnected}
use kancho_net.Types
use kancho_net.Packet.{Packet}
use kancho_net.Packet
use kancho_net.Ring
use kancho_net.Session.{is_disconnected, set_state, set_sending}
use kancho_net.Manager.{Address}
use kancho_net.Manager
use kancho_net.Net.{ok, fault, or_fault, and_then, Kernel}
use kancho_net.Host.{
  ◌>>=◌, ◌>>◌, pure, update, call, session_at, queue_packet, change_session, unlock_session,
  the_manager,
}
use kancho_net.Windows.{Windows, invalid_socket, create_tcp_socket, close_socket, shutdown_socket}
use kancho_net.Iocp.State.{
  Context, Run, App, allocate_context, context_at, set_context, deallocate_context,
}

module _ {K : Type 0} (kernel : Kernel K) (windows : Windows K) where
  unfoldable pub register_accept : Run K Bool
  register_accept = do
    c ← allocate_context kernel
    set_context c (λ x. record x { operation = Types.IoOperation.accept; session = 0 })
    socket ← create_tcp_socket kernel
    set_context c (λ x. record x { accept_socket = socket })
    if socket == invalid_socket then (do deallocate_context c; pure false) else (do
      s ← (λ s. ok (s, s))
      if s.handle.accept_ex_loaded then pure tt else (λ s. fault)
      posted ← call (windows.accept_ex s.listen_socket socket 0 c)
      if posted then pure true else (do close_socket socket; deallocate_context c; pure false))

  unfoldable pub post_receive : Address → Run K Bool
  post_receive p = do
    c ← allocate_context kernel
    set_context c (λ x. record x {
      operation = Types.IoOperation.receive;
      session = p;
      wsa_length = default_buffer_size;
    })
    x ← session_at p
    posted ← call (windows.wsa_recv x.socket default_buffer_size c)
    if posted then pure true else (do session_at p; deallocate_context c; pure false)

  unfoldable pub post_send : Address → Run K Bool
  post_send p = do
    change_session p (set_sending true)
    c ← allocate_context kernel
    set_context c (λ x. record x { operation = Types.IoOperation.send; session = p })
    x ← session_at p
    ctx ← context_at c
    (size, out) ← (λ s.
        and_then (or_fault (Ring.peek x.send_buffer (some ctx.buffer) default_buffer_size))
          (λ r. ok (r, s)))
    set_context c (λ y. record y { buffer = out })
    if size == 0
        then (do change_session p (set_sending false); deallocate_context c; pure true)
        else (do
          set_context c (λ y. record y { wsa_length = size })
          filled ← context_at c
          posted ← call (windows.wsa_send x.socket (take filled.wsa_length filled.buffer) c)
          if posted
              then pure true
              else (do change_session p (set_sending false); deallocate_context c; pure false))

  -- `Send`: `PostSend` runs under the guard, and does not take the lock.
  unfoldable pub send : Address → Packet → Run K Bool
  send p packet = if p == 0 || Packet.is_empty packet then pure false else (do
    written ← queue_packet p packet
    if ltb written packet.size then (do unlock_session p; pure false) else (do
      x ← session_at p
      if x.is_sending
          then (do unlock_session p; pure true)
          else (do posted ← post_send p; unlock_session p; pure posted)))

module _ {K : Type 0} where
  unfoldable pub close_session : Address → Run K (Unit {0})
  close_session p =
      if p == 0
      then pure tt
      else (do x ← session_at p; shutdown_socket x.socket; close_socket x.socket)

module _ {K : Type 0} (app : App K) where
  abbrev pub invoke : Option (Address → Run K (Unit {0})) → Address → Run K (Unit {0})
  invoke none p = pure tt
  invoke (some f) p = f p

  unfoldable pub process_disconnect : Context → Run K (Unit {0})
  process_disconnect ctx =
      let p = ctx.session in
      if p == 0 then pure tt else (do
        x ← session_at p
        if is_disconnected x then pure tt else do
          change_session p (set_state disconnected)
          invoke app.on_disconnect p
          y ← session_at p
          m ← the_manager
          update (λ s. record s { manager = some (Manager.remove_session m y.id).1 }))
