-- ===== src/Manager/Tests.antt =====
-- The theorems on KanchoNet/Session/SessionManager at a manager of two sessions.
use kancho_net.Common.{
  ◌+◌, ◌≤◌, ◌<◌, ◌≡◌, refl, ◌⊎◌, false, [], ◌∷◌, none, some, arith, ◌==◌, if◌then◌else◌,
}
use kancho_net.Types.{SessionId, connected}
use kancho_net.Ring.{Ring}
use kancho_net.Session.{Session, default_config}
use kancho_net.Manager.{
  Manager, add_session, remove_session, has_session, get_session, session_count,
}
use kancho_net.Manager.Ids.{IsValid, add_session_lem, remove_session_lem}

abbrev buffer : Ring
buffer = record { buffer = 0 ∷ 0 ∷ []; capacity = 2; read_pos = 0; write_pos = 0 }

abbrev session : SessionId → Session
session id = record {
  id = id;
  socket = 8 + id;
  state = connected;
  send_buffer = buffer;
  recv_buffer = buffer;
  user_data = 0;
  is_sending = false;
  config = default_config;
  locked = false;
}

abbrev two : Manager
two = record {
  max_sessions = 3;
  next_session_id = 6;
  entries =
      record { id = 5; address = 192; session = session 5 }
      ∷ record { id = 2; address = 64; session = session 2 }
      ∷ [];
}

two-IsValid : IsValid two
two-IsValid = record {
  ids = (omega arith, omega arith, refl, (omega arith, omega arith, refl, tt));
  within = omega arith;
  started = omega arith;
}

add_session_lem_example :
    ((3 ≤ session_count two) × (add_session two 11 default_config 320 ≡ some (none, two)))
    ⊎ ((session_count two < 3)
        × (has_session two 6 ≡ false)
        × ((m' : Manager) × (add_session two 11 default_config 320 ≡ some (some 320, m'))
            × IsValid m'
            × (m'.next_session_id ≡ 7)
            × (session_count m' ≡ session_count two + 1)
            × ((id : SessionId)
                → get_session m' id ≡ (if 6 == id then some 320 else get_session two id))))
add_session_lem_example =
    add_session_lem 11 default_config 320 two-IsValid (omega arith) (omega arith)

remove_session_lem_example :
    let (found, m') = remove_session two 2 in
    (found ≡ has_session two 2)
    × IsValid m'
    × (m'.next_session_id ≡ 6)
    × (session_count two ≡ session_count m' + (if has_session two 2 then 1 else 0))
    × ((j : SessionId) → get_session m' j ≡ (if 2 == j then none else get_session two j))
remove_session_lem_example = remove_session_lem 2 two-IsValid
