-- ===== src/Host.antt =====
-- The fields that KanchoNet/Network/EpollModel.h and IOUringModel.h share, and steps on them.
pub mod Access
pub mod Gone
pub mod Queue
use kancho_net.Common.{ℕ, Bool, true, false, List, [], ◌∷◌, Option, none, some, ◌==◌, if◌then◌else◌}
use kancho_net.Types.{Socket}
use kancho_net.Config.{Config}
use kancho_net.Packet.{Packet}
use kancho_net.Ring
use kancho_net.Session.{Session}
use kancho_net.Manager.{Manager, Address, deref, modify}
use kancho_net.Net.{Outcome, ok, hang, or_fault, Action, and_then}

-- The fields, the state of the operating system and the log of what was asked of it. `handle` is what
-- the model uses to wait for events; `mSocketToSession` is an association list.
pub record Host (H K : Type 0) : Type 0 where
  pub initialized : Bool
  pub running : Bool
  pub config : Config
  pub listen_socket : Socket
  pub handle : H
  pub manager : Option Manager
  pub socket_map : List (Socket × Address)
  pub kernel_state : K
  pub log : List Action

-- A method: the state after it and its result, if it returns.
abbrev pub Run : Type 0 → Type 0 → Type 0 → Type 0
Run H K A = Host H K → Outcome (A × Host H K)

infixl 5 ◌>>=◌ ◌>>◌
abbrev pub ◌>>=◌ : {H K A B : Type 0} → Run H K A → (A → Run H K B) → Run H K B
◌>>=◌ m f s = and_then (m s) (λ r. f r.0 r.1)

abbrev pub ◌>>◌ : {H K A B : Type 0} → Run H K A → Run H K B → Run H K B
m >> k = m >>= λ _. k

abbrev pub pure : {H K A : Type 0} → A → Run H K A
pure a s = ok (a, s)

abbrev pub update : {H K : Type 0} → (Host H K → Host H K) → Run H K (Unit {0})
update f s = ok (tt, f s)

abbrev pub act : {H K : Type 0} → Action → Run H K (Unit {0})
act a s = ok (tt, record s { log = a ∷ s.log })

-- `mSocketToSession`
unfoldable pub lookup : Socket → List (Socket × Address) → Option Address
lookup k [] = none
lookup k ((j, p) ∷ m) = if j == k then some p else lookup k m

unfoldable pub forget : Socket → List (Socket × Address) → List (Socket × Address)
forget k [] = []
forget k ((j, p) ∷ m) = if j == k then forget k m else (j, p) ∷ forget k m

-- The callbacks that `NetworkEngine` sets: what the application does, given the model. `none` is an
-- empty `std::function`.
pub record App (H K : Type 0) : Type 0 where
  pub on_accept : Option (Address → Run H K (Unit {0}))
  pub on_receive : Option (Address → List ℕ → Run H K (Unit {0}))
  pub on_disconnect : Option (Address → Run H K (Unit {0}))
  pub on_error : Option (Address → ℕ → Run H K (Unit {0}))

module _ {H K : Type 0} where
  -- `*mSessionManager`
  unfoldable pub the_manager : Run H K Manager
  the_manager s = and_then (or_fault s.manager) (λ m. ok (m, s))

  -- A read and a write through a `Session*`, undefined once the session is gone.
  unfoldable pub session_at : Address → Run H K Session
  unfolding the_manager
  session_at p s =
      and_then (or_fault s.manager) (λ m. and_then (or_fault (deref p m.entries)) (λ x. ok (x, s)))

  unfoldable pub change_session : Address → (Session → Session) → Run H K (Unit {0})
  unfolding the_manager
  change_session p f s = and_then (or_fault s.manager) (λ m.
      and_then (or_fault (deref p m.entries))
        (λ x. ok (tt, record s { manager = some (record m { entries = modify p f m.entries }) })))

  -- `SpinLockGuard`: its constructor spins for ever on a lock that this thread holds.
  unfoldable pub lock_session : Address → Run H K (Unit {0})
  lock_session p = do
    x ← session_at p
    if x.locked then (λ s. hang) else change_session p (λ y. record y { locked = true })

  unfoldable pub unlock_session : Address → Run H K (Unit {0})
  unlock_session p = change_session p (λ y. record y { locked = false })

  unfoldable pub call : {A : Type 0} → (K → A × K) → Run H K A
  call f s = let (a, k) = f s.kernel_state in ok (a, record s { kernel_state = k })

  -- The start of both `Send`s, under the lock: the packet into the send buffer, and how much of it fitted.
  unfoldable pub queue_packet : Address → Packet → Run H K ℕ
  queue_packet p packet = do
    lock_session p
    x ← session_at p
    (written, buffer) ← (λ s.
        and_then (or_fault (Ring.write x.send_buffer (some packet.vector.elems) packet.size))
          (λ r. ok (r, s)))
    change_session p (λ y. record y { send_buffer = buffer })
    pure written
