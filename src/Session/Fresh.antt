-- ===== src/Session/Fresh.antt =====
-- What the constructor of KanchoNet/Session/Session.cpp makes.
use kancho_net.Common.{◌*◌, ◌<◌, ◌≡◌, refl, false, some, arith}
use kancho_net.Types.{Socket, SessionId, idle}
use kancho_net.Ring.{max_size, available_read}
use kancho_net.Ring.Bounds
use kancho_net.Session.{Session, SessionConfig, create}

-- A new session.
pub record IsFresh (id : SessionId) (socket : Socket) (s : Session) : Type 0 where
  pub its_id : s.id ≡ id
  pub its_socket : s.socket ≡ socket
  pub its_state : s.state ≡ idle
  pub quiet : s.is_sending ≡ false
  pub unlocked : s.locked ≡ false
  pub sends : Bounds.IsValid s.send_buffer
  pub receives : Bounds.IsValid s.recv_buffer
  pub nothing_to_send : available_read s.send_buffer ≡ 0

-- A session can be made if twice its largest packet fits into a vector; it is idle, unlocked and has
-- nothing to send.
pub create-IsFresh :
    (id : SessionId) (socket : Socket) (config : SessionConfig)
    → config.max_packet_size * 2 < max_size
    → (s : Session) × (create id socket config ≡ some s) × IsFresh id socket s
unfolding create
create-IsFresh id socket config h =
    let (r, e, v, z, w) = Bounds.create-IsValid (config.max_packet_size * 2) h in
    (
      record {
        id = id;
        socket = socket;
        state = idle;
        send_buffer = r;
        recv_buffer = r;
        user_data = 0;
        is_sending = false;
        config = config;
        locked = false;
      },
      ground (arith, e),
      record {
        its_id = refl;
        its_socket = refl;
        its_state = refl;
        quiet = refl;
        unlocked = refl;
        sends = v;
        receives = v;
        nothing_to_send = z;
      },
    )
