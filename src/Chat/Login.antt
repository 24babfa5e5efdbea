-- ===== src/Chat/Login.antt =====
-- Examples/ChatServer/ChatServer.h: what HandleLogin does, and the users by their ids and addresses.
use kancho_net.Common.{
  ℕ, ◌≡◌, ◌≢◌, refl, Bool, false, List, [], ◌∷◌, some, arith, ◌==◌, if◌then◌else◌, drop, ◌++◌,
  replicate,
}
use kancho_net.Session.{Session}
use kancho_net.Manager.{Manager, Address}
use kancho_net.Net.{ok}
use kancho_net.Host.{Host, lookup}
use kancho_net.Host as Host
use kancho_net.Host.Access.{Holds, session_at_lem}
use kancho_net.Chat.Protocol.{
  header, header_size, response_size, login_response_type, welcome, c_string, strcpy_s,
  login_response,
}
use kancho_net.Chat.Server.{
  ChatUser, World, find_user, set_name, set_entry, user_at, rename_user, enter_user, handle_login,
}

pub lookup-set_entry :
    (id a i : ℕ) (m : List (ℕ × ℕ))
    → lookup i (set_entry id a m) ≡ (if id == i then some a else lookup i m)
unfolding lookup set_entry
lookup-set_entry id a i [] = refl
lookup-set_entry id a i ((j, b) ∷ m) = ground (arith, lookup-set_entry id a i m)

pub find_user-set_name :
    (a b : ℕ) (name : List ℕ) (u : ChatUser) (h : List (ℕ × ChatUser))
    → find_user a h ≡ some u
    → find_user b (set_name a name h)
      ≡ (if a == b then some (record u { username = name }) else find_user b h)
unfolding find_user set_name
find_user-set_name a b name u [] e = cc
find_user-set_name a b name u ((c, v) ∷ h) e = ground (arith, find_user-set_name a b name u h)

-- The response to a login, which is the same for all.
abbrev pub response : List ℕ
response = header response_size login_response_type ++ (1 ∷ (welcome ++ replicate 32 0))

pub login_response_lem : login_response ≡ some response
unfolding login_response strcpy_s header replicate
login_response_lem = refl

-- Send of the engine returns for the session at `p`, and leaves its id and its user.
pub record Answers {H K : Type 0} (engine_send : Address → List ℕ → Host.Run H K Bool) (p : Address)
    (packet : List ℕ) (x : Session) (s : Host H K) : Type 0 where
  pub answer : Bool
  pub after : Host H K
  pub y : Session
  pub n : Manager
  pub returns : engine_send p packet s ≡ ok (answer, after)
  pub lives : Holds p y n after
  pub same_id : y.id ≡ x.id
  pub same_user : y.user_data ≡ x.user_data

module _ {H K : Type 0} (engine_send : Address → List ℕ → Host.Run H K Bool) where
  pub handle_login_lem :
      {x : Session} {m : Manager} {u : ChatUser} {name : List ℕ} (p : Address) (data_bytes : List ℕ)
      (w : World H K)
      → Holds p x m w.host
      → x.user_data ≢ 0
      → find_user x.user_data w.heap ≡ some u
      → c_string (drop header_size data_bytes) ≡ some name
      → (q : Answers engine_send p response x w.host)
      → handle_login engine_send p data_bytes w
        ≡ ok (
          tt,
          record {
            users = set_entry x.id x.user_data w.users;
            heap = set_name x.user_data name w.heap;
            host = q.after;
          },
        )
  unfolding handle_login user_at rename_user enter_user
  handle_login_lem {x} p data_bytes w h ne f c q =
      let live : (x.user_data == 0) ≡ false = ground arith in
      rw (session_at_lem h, live, c, f, login_response_lem, q.returns) refl
