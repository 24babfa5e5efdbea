-- ===== src/Chat/Server.antt =====
-- Examples/ChatServer/ChatServer.h: the callbacks of the server. A callback takes the users and the
-- fields of the network model that calls it. Send of the engine and `new` are parameters.
use kancho_net.Common.{
  ℕ, Bool, true, false, List, [], ◌∷◌, Option, none, some, ◌==◌, ltb, if◌then◌else◌, drop,
}
use kancho_net.Manager.{Address}
use kancho_net.Net.{Outcome, ok, fault, and_then}
use kancho_net.Host.{Host, session_at, change_session, call, lookup, forget}
use kancho_net.Host as Host
use kancho_net.Chat.Protocol.{
  login_type, message_type, logout_type, header_size, packet_type, c_string, login_response,
  broadcast,
}

-- `ChatUser`
pub record ChatUser : Type 0 where
  pub username : List ℕ
  pub session : Address

-- `mUsers`, by the ids of sessions, the users that are allocated, by their addresses, and the fields of
-- the network model.
pub record World (H K : Type 0) : Type 0 where
  pub users : List (ℕ × ℕ)
  pub heap : List (ℕ × ChatUser)
  pub host : Host H K

abbrev pub Run : Type 0 → Type 0 → Type 0 → Type 0
Run H K A = World H K → Outcome (A × World H K)

infixl 5 ◌>>=◌ ◌>>◌
abbrev pub ◌>>=◌ : {H K A B : Type 0} → Run H K A → (A → Run H K B) → Run H K B
◌>>=◌ m f w = and_then (m w) (λ r. f r.0 r.1)

abbrev pub ◌>>◌ : {H K A B : Type 0} → Run H K A → Run H K B → Run H K B
m >> k = m >>= λ _. k

abbrev pub pure : {H K A : Type 0} → A → Run H K A
pure a w = ok (a, w)

-- What the program cannot go on from: a read outside the memory or of freed memory, or a violated
-- constraint of `strcpy_s`.
abbrev pub required : {H K A : Type 0} → Option A → Run H K A
required none w = fault
required (some a) w = ok (a, w)

-- A step of the network model's own.
abbrev pub on_host : {H K A : Type 0} → Host.Run H K A → Run H K A
on_host m w = and_then (m w.host) (λ r. ok (r.0, record w { host = r.1 }))

unfoldable pub find_user : ℕ → List (ℕ × ChatUser) → Option ChatUser
find_user a [] = none
find_user a ((b, u) ∷ h) = if b == a then some u else find_user a h

unfoldable pub set_name : ℕ → List ℕ → List (ℕ × ChatUser) → List (ℕ × ChatUser)
set_name a name [] = []
set_name a name ((b, u) ∷ h) =
    if b == a then (b, record u { username = name }) ∷ h else (b, u) ∷ set_name a name h

unfoldable pub free_user : ℕ → List (ℕ × ChatUser) → List (ℕ × ChatUser)
free_user a [] = []
free_user a ((b, u) ∷ h) = if b == a then free_user a h else (b, u) ∷ free_user a h

-- `mUsers[id] = user`
unfoldable pub set_entry : ℕ → ℕ → List (ℕ × ℕ) → List (ℕ × ℕ)
set_entry id a [] = (id, a) ∷ []
set_entry id a ((j, b) ∷ m) = if j == id then (j, a) ∷ m else (j, b) ∷ set_entry id a m

unfoldable pub is_nil : List ℕ → Bool
is_nil [] = true
is_nil (_ ∷ _) = false

module _ {H K : Type 0} where
  -- A read through a `ChatUser*`.
  unfoldable pub user_at : ℕ → Run H K ChatUser
  user_at a w = required (find_user a w.heap) w

  unfoldable pub rename_user : ℕ → List ℕ → Run H K (Unit {0})
  rename_user a name w = ok (tt, record w { heap = set_name a name w.heap })

  unfoldable pub delete_user : ℕ → Run H K (Unit {0})
  delete_user a w = ok (tt, record w { heap = free_user a w.heap })

  unfoldable pub set_user_data : Address → ℕ → Run H K (Unit {0})
  set_user_data p a = on_host (change_session p (λ y. record y { user_data = a }))

  unfoldable pub enter_user : ℕ → ℕ → Run H K (Unit {0})
  enter_user id a w = ok (tt, record w { users = set_entry id a w.users })

  unfoldable pub erase_user : ℕ → Run H K (Unit {0})
  erase_user id w = ok (tt, record w { users = forget id w.users })

  unfoldable pub on_disconnect : Address → Run H K (Unit {0})
  on_disconnect p = do
    x ← on_host (session_at p)
    if x.user_data == 0 then pure tt else do
      u ← user_at x.user_data
      (if is_nil u.username then pure tt else erase_user x.id)
      delete_user x.user_data
      set_user_data p 0

  unfoldable pub on_error : Address → ℕ → Run H K (Unit {0})
  on_error p error_code = if p == 0 then pure tt else (on_host (session_at p) >>= λ x. pure tt)

  unfoldable pub handle_logout : Address → Run H K (Unit {0})
  handle_logout p = do
    x ← on_host (session_at p)
    if x.user_data == 0
        then pure tt
        else do u ← user_at x.user_data; if is_nil u.username then pure tt else erase_user x.id

  -- `new ChatUser{ "", session }` takes its address from the allocator.
  unfoldable pub on_accept : (K → ℕ × K) → Address → Run H K (Unit {0})
  on_accept new_user p = do
    x ← on_host (session_at p)
    a ← on_host (call new_user)
    (λ w. ok (tt, record w { heap = (a, record { username = []; session = p }) ∷ w.heap }))
    set_user_data p a

  module _ (engine_send : Address → List ℕ → Host.Run H K Bool) where
    -- The loop of BroadcastMessage over the users that are in the map.
    unfoldable pub send_each : List ℕ → List (ℕ × ℕ) → Run H K (Unit {0})
    send_each packet [] = pure tt
    send_each packet ((id, a) ∷ m) = do
      u ← user_at a
      _ ← on_host (engine_send u.session packet)
      send_each packet m

    unfoldable pub broadcast_message : List ℕ → Run H K (Unit {0})
    broadcast_message packet w = send_each packet w.users w

    -- The bytes are those that can be read from `data` on, which may be more than were received.
    unfoldable pub handle_login : Address → List ℕ → Run H K (Unit {0})
    handle_login p data_bytes = do
      x ← on_host (session_at p)
      if x.user_data == 0 then pure tt else do
        name ← required (c_string (drop header_size data_bytes))
        u ← user_at x.user_data
        rename_user x.user_data name
        enter_user x.id x.user_data
        response ← required login_response
        _ ← on_host (engine_send p response)
        pure tt

    unfoldable pub handle_message : Address → List ℕ → Run H K (Unit {0})
    handle_message p data_bytes = do
      x ← on_host (session_at p)
      if x.user_data == 0 then pure tt else do
        u ← user_at x.user_data
        if is_nil u.username then pure tt else do
          message ← required (c_string (drop header_size data_bytes))
          packet ← required (broadcast u.username message)
          broadcast_message packet

    unfoldable pub on_receive : Address → List ℕ → ℕ → Run H K (Unit {0})
    on_receive p data_bytes size =
        if ltb size header_size
        then pure tt
        else if packet_type data_bytes == login_type
        then handle_login p data_bytes
        else if packet_type data_bytes == message_type
        then handle_message p data_bytes
        else if packet_type data_bytes == logout_type
        then handle_logout p
        else pure tt
