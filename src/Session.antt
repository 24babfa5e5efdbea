-- ===== src/Session.antt =====
-- KanchoNet/Session/Session.h, Session.cpp and SessionConfig.h: one client connection.
pub mod Lock
pub mod Progress
pub mod Fresh
pub mod Moved
mod Tests
use kancho_net.Common.{
  ℕ, ◌*◌, Bool, true, false, Option, none, some, ◌>>=◌, mul_size, if◌then◌else◌,
}
use kancho_net.Types.{
  Socket, SessionId, invalid_socket, invalid_session_id, SessionState, idle, connected,
  disconnecting, disconnected,
}
use kancho_net.Ring.{Ring}
use kancho_net.Ring

pub record SessionConfig : Type 0 where
  pub receive_timeout_ms : ℕ
  pub send_timeout_ms : ℕ
  pub max_packet_size : ℕ

abbrev pub default_config : SessionConfig
default_config = record {
  receive_timeout_ms = 60000;
  send_timeout_ms = 30000;
  max_packet_size = 1024 * 1024;
}

-- `user_data` is a pointer, 0 for null; `locked` is the flag of the spin lock.
pub record Session : Type 0 where
  pub id : SessionId
  pub socket : Socket
  pub state : SessionState
  pub send_buffer : Ring
  pub recv_buffer : Ring
  pub user_data : ℕ
  pub is_sending : Bool
  pub config : SessionConfig
  pub locked : Bool

-- The constructor; `none` if a buffer cannot be made.
unfoldable pub create : SessionId → Socket → SessionConfig → Option Session
create id socket config = do
  send_buffer ← Ring.create (mul_size config.max_packet_size 2)
  recv_buffer ← Ring.create (mul_size config.max_packet_size 2)
  some (record {
    id = id;
    socket = socket;
    state = idle;
    send_buffer = send_buffer;
    recv_buffer = recv_buffer;
    user_data = 0;
    is_sending = false;
    config = config;
    locked = false;
  })

-- The move constructor: the new session, with a lock of its own, and the other one afterwards.
unfoldable pub move : Session → Session × Session
move other = (
  record other {
    send_buffer = (Ring.move other.send_buffer).0;
    recv_buffer = (Ring.move other.recv_buffer).0;
    locked = false;
  },
  record other {
    id = invalid_session_id;
    socket = invalid_socket;
    send_buffer = (Ring.move other.send_buffer).1;
    recv_buffer = (Ring.move other.recv_buffer).1;
    user_data = 0;
  },
)

-- The move assignment, which leaves the lock of each as it is.
unfoldable pub move_assign : Bool → Session → Session → Session × Session
move_assign same s other = if same then (s, s) else (
  record other {
    send_buffer = (Ring.move other.send_buffer).0;
    recv_buffer = (Ring.move other.recv_buffer).0;
    locked = s.locked;
  },
  (move other).1,
)

unfoldable pub is_connected : Session → Bool
is_connected s = elim s.state [ connected ↦ true | _ ↦ false ]

unfoldable pub is_disconnected : Session → Bool
is_disconnected s = elim s.state [ disconnected ↦ true | _ ↦ false ]

unfoldable pub set_state : SessionState → Session → Session
set_state state s = record s { state = state }

unfoldable pub set_sending : Bool → Session → Session
set_sending sending s = record s { is_sending = sending }
