-- ===== src/Session/Moved.antt =====
-- KanchoNet/Session/Session.cpp: what the move assignment leaves.
use kancho_net.Common.{◌≡◌, refl, false, []}
use kancho_net.Types.{invalid_socket, invalid_session_id}
use kancho_net.Ring.Contents.{contents}
use kancho_net.Ring.Moved.{contents-move}
use kancho_net.Session.{Session, move, move_assign}

-- A session that is assigned to keeps its lock and takes the rest, the bytes that wait to be sent
-- included; the other has no id and no socket left, and nothing to send.
pub move_assign_lem :
    (s other : Session)
    → let (s', other') = move_assign false s other in
      (s'.locked ≡ s.locked)
      × (s'.id ≡ other.id)
      × (s'.socket ≡ other.socket)
      × (s'.state ≡ other.state)
      × (contents s'.send_buffer ≡ contents other.send_buffer)
      × (contents s'.recv_buffer ≡ contents other.recv_buffer)
      × (other'.id ≡ invalid_session_id)
      × (other'.socket ≡ invalid_socket)
      × (contents other'.send_buffer ≡ [])
unfolding move_assign move
move_assign_lem s other = (
  refl,
  refl,
  refl,
  refl,
  (contents-move other.send_buffer).0,
  (contents-move other.recv_buffer).0,
  refl,
  refl,
  (contents-move other.send_buffer).1,
)
