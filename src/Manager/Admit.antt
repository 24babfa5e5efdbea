-- ===== src/Manager/Admit.antt =====
-- KanchoNet/Session/SessionManager.cpp, AddSession: the session that it makes, at a fresh address.
use kancho_net.Common.{
  ◌+◌, ◌*◌, ◌-◌, ◌^◌, ◌<◌, ◌≡◌, ◌≢◌, none, some, arith, false, leb, length, ◌∷◌,
}
use kancho_net.Types.{Socket}
use kancho_net.Ring.{max_size}
use kancho_net.Session.{Session, SessionConfig}
use kancho_net.Session.Fresh
use kancho_net.Manager.{Manager, Address, find, deref, add_session, generate_session_id}
use kancho_net.Manager.Ids.{IsValid, erase_above}
use kancho_net.Manager.Live.{Apart}

-- The manager with the session `x` admitted at `a` under the next id.
abbrev pub admitted : Manager → Address → Session → Manager
admitted m a x = record {
  max_sessions = m.max_sessions;
  next_session_id = m.next_session_id + 1;
  entries = record { id = m.next_session_id; address = a; session = x } ∷ m.entries;
}

pub admit_lem :
    {m : Manager} (socket : Socket) (config : SessionConfig) (a : Address)
    → IsValid m
    → Apart m.entries
    → a ≢ 0
    → deref a m.entries ≡ none
    → length m.entries < m.max_sessions
    → m.next_session_id < 2 ^ 64 - 1
    → config.max_packet_size * 2 < max_size
    → (x : Session) × (add_session m socket config a ≡ some (some a, admitted m a x))
      × Fresh.IsFresh m.next_session_id socket x
      × Apart (admitted m a x).entries
      × (find m.next_session_id (admitted m a x).entries
          ≡ some (record { id = m.next_session_id; address = a; session = x }))
unfolding add_session find generate_session_id
admit_lem {m} socket config a v apart ne fresh free room small =
    let (x, e, f) = Fresh.create-IsFresh m.next_session_id socket config small in
    let same = erase_above m.next_session_id m.next_session_id m.entries v.ids (omega arith) in
    let nothing_full : leb m.max_sessions (length m.entries) ≡ false = ground arith in
    (x, ground (arith, e, same), f, (ne, fresh, apart), ground arith)
