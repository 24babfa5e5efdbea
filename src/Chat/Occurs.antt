-- ===== src/Chat/Occurs.antt =====
-- Examples/ChatServer/ChatServer.h: the calls that the engine makes of the server, and what holds between them.
use kancho_net.Common.{
  ℕ, ◌<◌, ◌≤◌, ◌≡◌, ◌≢◌, Bool, List, false, true, none, some, ◌==◌, if◌then◌else◌, drop,
}
use kancho_net.Session.{Session}
use kancho_net.Manager.{Manager, Address}
use kancho_net.Net.{ok}
use kancho_net.Host.{Host}
use kancho_net.Host as Host
use kancho_net.Host.Access.{Holds}
use kancho_net.Chat.Protocol.{
  header_size, packet_type, login_type, message_type, logout_type, c_string, broadcast,
}
use kancho_net.Chat.Server.{
  ChatUser, World, Run, find_user, is_nil, on_accept, on_receive, on_disconnect, on_error,
}
use kancho_net.Chat.Login.{response, Answers}
use kancho_net.Chat.Fanout.{Sessions, Sends}
use kancho_net.Chat.Sound.{Sound}
use kancho_net.Chat.Linked.{Linked, Carries}

-- Each entry of the map leads to a live user with a name, and each live session to its own user or none.
pub record IsSound {H K : Type 0} (owner : ℕ → ℕ) (w : World H K) : Type 0 where
  pub entries : Sound owner w.heap w.users
  pub linked : Linked owner w.heap w.host

-- It returns, and all is sound after it.
abbrev pub Keeps : {H K : Type 0} → (ℕ → ℕ) → World H K → Run H K (Unit {0}) → Type 0
Keeps {H} {K} owner w r = (w' : World H K) × (r w ≡ ok (tt, w')) × IsSound owner w'

module _ {H K : Type 0} (new_user : K → ℕ × K)
    (engine_send : Address → List ℕ → Host.Run H K Bool) where
  -- What happens in the state `w`, as the run of a callback or of the network model, and for which ids the
  -- users are made after it.
  pub data Occurs (owner : ℕ → ℕ) (w : World H K) : Run H K (Unit {0}) → (ℕ → ℕ) → Type 0 where
    -- The network model works between two calls.
    works :
        (t : Host H K)
        → Carries w.host t
        → Occurs owner w (λ v. ok (tt, record v { host = t })) owner
    connects :
        {x : Session} {m : Manager} {a : ℕ} {k : K} (p : Address)
        → Holds p x m w.host
        → new_user w.host.kernel_state ≡ (a, k)
        → find_user a w.heap ≡ none
        → Occurs owner w (on_accept new_user p) (λ b. if b == a then x.id else owner b)
    sends_short :
        (p : Address) (data_bytes : List ℕ) (size : ℕ)
        → size < header_size
        → Occurs owner w (on_receive engine_send p data_bytes size) owner
    sends_unknown :
        (p : Address) (data_bytes : List ℕ) (size : ℕ)
        → header_size ≤ size
        → packet_type data_bytes ≢ login_type
        → packet_type data_bytes ≢ message_type
        → packet_type data_bytes ≢ logout_type
        → Occurs owner w (on_receive engine_send p data_bytes size) owner
    -- A session without a user sends any packet.
    sends_userless :
        {x : Session} {m : Manager} (p : Address) (data_bytes : List ℕ) (size : ℕ)
        → header_size ≤ size
        → Holds p x m w.host
        → x.user_data ≡ 0
        → Occurs owner w (on_receive engine_send p data_bytes size) owner
    logs_in :
        {x : Session} {m : Manager} {name : List ℕ} (p : Address) (data_bytes : List ℕ) (size : ℕ)
        → header_size ≤ size
        → packet_type data_bytes ≡ login_type
        → c_string (drop header_size data_bytes) ≡ some name
        → is_nil name ≡ false
        → Holds p x m w.host
        → x.user_data ≢ 0
        → (q : Answers engine_send p response x w.host) → Carries w.host q.after
        → Occurs owner w (on_receive engine_send p data_bytes size) owner
    -- A message of a user without a name.
    says_nameless :
        {x : Session} {m : Manager} {u : ChatUser} (p : Address) (data_bytes : List ℕ) (size : ℕ)
        → header_size ≤ size
        → packet_type data_bytes ≡ message_type
        → Holds p x m w.host
        → x.user_data ≢ 0
        → find_user x.user_data w.heap ≡ some u
        → is_nil u.username ≡ true
        → Occurs owner w (on_receive engine_send p data_bytes size) owner
    says :
        {x : Session} {m : Manager} {u : ChatUser} {message packet : List ℕ} {ps : List Address}
        {t : Host H K} (p : Address) (data_bytes : List ℕ) (size : ℕ)
        → header_size ≤ size
        → packet_type data_bytes ≡ message_type
        → c_string (drop header_size data_bytes) ≡ some message
        → Holds p x m w.host
        → x.user_data ≢ 0
        → find_user x.user_data w.heap ≡ some u
        → is_nil u.username ≡ false
        → broadcast u.username message ≡ some packet
        → Sessions w.heap w.users ps
        → Sends engine_send packet ps w.host t
        → Carries w.host t
        → Occurs owner w (on_receive engine_send p data_bytes size) owner
    logs_out :
        {x : Session} {m : Manager} (p : Address) (data_bytes : List ℕ) (size : ℕ)
        → header_size ≤ size
        → packet_type data_bytes ≡ logout_type
        → Holds p x m w.host
        → x.user_data ≢ 0
        → Occurs owner w (on_receive engine_send p data_bytes size) owner
    leaves :
        {x : Session} {m : Manager} (p : Address)
        → Holds p x m w.host
        → Occurs owner w (on_disconnect p) owner
    errs_nowhere : (code : ℕ) → Occurs owner w (on_error 0 code) owner
    errs :
        {x : Session} {m : Manager} (p : Address) (code : ℕ)
        → Holds p x m w.host
        → Occurs owner w (on_error p code) owner
