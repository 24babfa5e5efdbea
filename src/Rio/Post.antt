-- ===== src/Rio/Post.antt =====
-- KanchoNet/Network/RIOModel.cpp: `Send`, the posts, and the end of a session.
use kancho_net.Common.{Bool, true, false, ◌||◌, ◌==◌, ltb, if◌then◌else◌}
use kancho_net.Packet.{Packet}
use kancho_net.Packet
use kancho_net.Manager.{Address}
use kancho_net.Host.{◌>>=◌, ◌>>◌, pure, queue_packet, session_at, unlock_session}
use kancho_net.Windows.{close_socket, shutdown_socket}
use kancho_net.Rio.State.{Run}

module _ {K : Type 0} where
  -- The posts only write to the log of the program.
  unfoldable pub post_receive : Address → Run K Bool
  post_receive p = pure true

  unfoldable pub post_send : Address → Run K Bool
  post_send p = pure true

  unfoldable pub send : Address → Packet → Run K Bool
  send p packet = if p == 0 || Packet.is_empty packet then pure false else (do
    written ← queue_packet p packet
    if ltb written packet.size then (do unlock_session p; pure false) else (do
      x ← session_at p
      if x.is_sending
          then (do unlock_session p; pure true)
          else (do posted ← post_send p; unlock_session p; pure posted)))

  unfoldable pub close_session : Address → Run K (Unit {0})
  close_session p =
      if p == 0
      then pure tt
      else (do x ← session_at p; shutdown_socket x.socket; close_socket x.socket)
