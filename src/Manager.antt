-- ===== src/Manager.antt =====
-- KanchoNet/Session/SessionManager.h and SessionManager.cpp: the sessions by their ids. Each method
-- runs under the manager's mutex, so it is one step here. The manager owns its sessions: a session
-- lives at its address exactly as long as the manager has an entry for it.
pub mod Ids
pub mod Live
pub mod Admit
mod Tests
use kancho_net.Common.{
  ℕ, ◌+◌, ◌^◌, Bool, true, false, List, [], ◌∷◌, Option, none, some, ◌>>=◌, leb, ◌==◌,
  if◌then◌else◌, add_size, length,
}
use kancho_net.Types.{Socket, SessionId}
use kancho_net.Session.{Session, SessionConfig}
use kancho_net.Session

-- A `Session*`; 0 is the null pointer.
abbrev pub Address : Type 0
Address = ℕ

-- An entry of `mSessions`: the id, the address that the `unique_ptr` holds, and the session there.
pub record Entry : Type 0 where
  pub id : SessionId
  pub address : Address
  pub session : Session

pub record Manager : Type 0 where
  pub max_sessions : ℕ
  pub next_session_id : SessionId
  pub entries : List Entry

unfoldable pub create : ℕ → Manager
create max_sessions = record { max_sessions = max_sessions; next_session_id = 1; entries = [] }

-- `mSessions.find`
unfoldable pub find : SessionId → List Entry → Option Entry
find id [] = none
find id (e ∷ es) = if e.id == id then some e else find id es

unfoldable pub erase : SessionId → List Entry → List Entry
erase id [] = []
erase id (e ∷ es) = if e.id == id then es else e ∷ erase id es

-- `fetch_add`: the id given out, and the counter afterwards.
unfoldable pub generate_session_id : Manager → SessionId × Manager
generate_session_id m =
    (m.next_session_id, record m { next_session_id = add_size m.next_session_id 1 })

-- `AddSession`, with the address that `make_unique` returns. `mSessions[id] = …` replaces an entry of
-- that id. `none` if the session cannot be made.
unfoldable pub add_session :
    Manager → Socket → SessionConfig → Address → Option (Option Address × Manager)
unfolding generate_session_id
add_session m socket config address =
    if leb m.max_sessions (length m.entries) then some (none, m) else (do
      let (id, m') = generate_session_id m
      session ← Session.create id socket config
      some (
        some address,
        record m' {
          entries = record { id = id; address = address; session = session } ∷ erase id m'.entries;
        },
      ))

unfoldable pub has_session : Manager → SessionId → Bool
has_session m id = elim (find id m.entries) [ none ↦ false | some e ↦ true ]

unfoldable pub remove_session : Manager → SessionId → Bool × Manager
unfolding has_session
remove_session m id =
    if has_session m id then (true, record m { entries = erase id m.entries }) else (false, m)

unfoldable pub get_session : Manager → SessionId → Option Address
get_session m id = elim (find id m.entries) [ none ↦ none | some e ↦ some e.address ]

unfoldable pub session_count : Manager → ℕ
session_count m = length m.entries

unfoldable pub is_full : Manager → Bool
unfolding session_count
is_full m = leb m.max_sessions (session_count m)

unfoldable pub clear : Manager → Manager
clear m = record m { entries = [] }

-- `ForEachSession`: the callback on each session, with a state of its own.
unfoldable pub for_each {ℓ} : {S : Type ℓ} → (Address → S → S) → List Entry → S → S
for_each f [] s = s
for_each f (e ∷ es) s = for_each f es (f e.address s)

-- The session that a pointer points to, while it lives, and a change to it.
unfoldable pub deref : Address → List Entry → Option Session
deref p [] = none
deref p (e ∷ es) = if e.address == p then some e.session else deref p es

unfoldable pub modify : Address → (Session → Session) → List Entry → List Entry
modify p f [] = []
modify p f (e ∷ es) =
    if e.address == p then record e { session = f e.session } ∷ es else e ∷ modify p f es
