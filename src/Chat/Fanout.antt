-- ===== src/Chat/Fanout.antt =====
-- Examples/ChatServer/ChatServer.h: whom a message is sent to, and what a name that is too long does.
use kancho_net.Common.{
  ℕ, ◌≤◌, ◌≡◌, ◌≢◌, refl, ap, sym, ◌∙◌, Bool, false, List, [], ◌∷◌, some, arith, ◌==◌, ltb, drop,
  length, Option-cases, inl, inr, ==_refl,
}
use kancho_net.Session.{Session}
use kancho_net.Manager.{Manager, Address}
use kancho_net.Net.{ok, fault}
use kancho_net.Host.{Host}
use kancho_net.Host as Host
use kancho_net.Host.Access.{Holds, session_at_lem}
use kancho_net.Chat.Protocol.{
  header_size, packet_type, login_type, message_type, c_string, strcpy_s, broadcast,
}
use kancho_net.Chat.Server.{
  ChatUser, World, find_user, user_at, is_nil, send_each, broadcast_message, handle_message,
  on_receive, ◌>>◌, set_name, set_entry,
}
use kancho_net.Chat.Login.{find_user-set_name, response, Answers, handle_login_lem}

pub no_null : {a : ℕ} → a ≢ 0 → (a == 0) ≡ false
no_null ne = ground arith

named_if_long : (name : List ℕ) → 32 ≤ length name → is_nil name ≡ false
unfolding is_nil
named_if_long [] h = absurd (omega arith)
named_if_long (_ ∷ _) h = refl

-- The users of the map live, and these are their sessions.
pub data Sessions (heap : List (ℕ × ChatUser)) : List (ℕ × ℕ) → List Address → Type 0 where
  no_users : Sessions heap [] []
  a_user :
      {id a : ℕ} {u : ChatUser} {m : List (ℕ × ℕ)} {ps : List Address}
      → find_user a heap ≡ some u
      → Sessions heap m ps
      → Sessions heap ((id, a) ∷ m) (u.session ∷ ps)

module _ {H K : Type 0} (engine_send : Address → List ℕ → Host.Run H K Bool) where
  -- Send returns for each of the sessions in turn, from the first fields to the last.
  pub data Sends (packet : List ℕ) : List Address → Host H K → Host H K → Type 0 where
    none_left : {s : Host H K} → Sends packet [] s s
    one_more :
        {p : Address} {ps : List Address} {s t r : Host H K} {answer : Bool}
        → engine_send p packet s ≡ ok (answer, t)
        → Sends packet ps t r
        → Sends packet (p ∷ ps) s r

  send_each_lem :
      (packet : List ℕ) (users : List (ℕ × ℕ)) (heap : List (ℕ × ChatUser)) {ps : List Address}
      {m : List (ℕ × ℕ)}
      → Sessions heap m ps
      → {s t : Host H K} → Sends packet ps s t
      → send_each engine_send packet m (record { users = users; heap = heap; host = s })
        ≡ ok (tt, record { users = users; heap = heap; host = t })
  unfolding send_each user_at
  send_each_lem packet users heap no_users none_left = refl
  send_each_lem packet users heap (a_user found ss) (one_more returned st) =
      rw (found, returned) (send_each_lem packet users heap ss st)

  -- A message packet from a live session whose user is allocated and has a name is sent to the session
  -- of every user in the map once, in the map's order, as the packet made of that name and the message,
  -- and changes no user; provided that the name and the message fit into that packet, that the
  -- users in the map live and that each Send returns.
  pub message_reaches_all :
      {x : Session} {m : Manager} {u : ChatUser} {message packet : List ℕ} {ps : List Address}
      {t : Host H K} (p : Address) (data_bytes : List ℕ) (size : ℕ) (w : World H K)
      → header_size ≤ size
      → packet_type data_bytes ≡ message_type
      → Holds p x m w.host
      → x.user_data ≢ 0
      → find_user x.user_data w.heap ≡ some u
      → is_nil u.username ≡ false
      → c_string (drop header_size data_bytes) ≡ some message
      → broadcast u.username message ≡ some packet
      → Sessions w.heap w.users ps
      → Sends packet ps w.host t
      → on_receive engine_send p data_bytes size w ≡ ok (tt, record w { host = t })
  unfolding on_receive handle_message user_at broadcast_message
  message_reaches_all {packet = packet} p data_bytes size w big kind h ne f named said made ss st =
      let enough : ltb size header_size ≡ false = ground arith in
      let live = no_null ne in
      rw (enough, kind, session_at_lem h, live, f, named, said, made)
        (send_each_lem packet w.users w.heap ss st)

  -- HandleMessage does not go on from a name of 32 bytes or more, whatever the message.
  long_name_stops :
      {x : Session} {m : Manager} {u : ChatUser} (p : Address) (data_bytes : List ℕ) (w : World H K)
      → Holds p x m w.host
      → x.user_data ≢ 0
      → find_user x.user_data w.heap ≡ some u
      → 32 ≤ length u.username
      → handle_message engine_send p data_bytes w ≡ fault
  unfolding handle_message user_at broadcast strcpy_s
  long_name_stops {x} {u = u} p data_bytes w h ne f long =
      let live = no_null ne in
      let named : is_nil u.username ≡ false = named_if_long u.username long in
      let over : ltb (length u.username) 32 ≡ false = ground arith in
      rw (session_at_lem h, live, f, named)
        (elim (Option-cases (c_string (drop header_size data_bytes))) [
          | inl never ↦ rw never refl
          | inr (message, said) ↦ rw (said, over) refl
        ])

  -- Let a session live whose user is allocated, and let the Send of the response to a login return and leave
  -- the session its id and user. A login packet from it with a name of 32 bytes or more and then a
  -- message packet, whatever the message, end the server.
  pub long_name_ends :
      {x : Session} {m : Manager} {u : ChatUser} {name : List ℕ} (p : Address)
      (login_bytes message_bytes : List ℕ) (size size' : ℕ) (w : World H K)
      → header_size ≤ size
      → packet_type login_bytes ≡ login_type
      → c_string (drop header_size login_bytes) ≡ some name
      → 32 ≤ length name
      → header_size ≤ size'
      → packet_type message_bytes ≡ message_type
      → Holds p x m w.host
      → x.user_data ≢ 0
      → find_user x.user_data w.heap ≡ some u
      → Answers engine_send p response x w.host
      → (on_receive engine_send p login_bytes size >> on_receive engine_send p message_bytes size')
          w
        ≡ fault
  unfolding on_receive
  long_name_ends {x} {u = u} {name} p login_bytes message_bytes size size' w big kind c long big'
        kind' h ne f q =
      let enough : ltb size header_size ≡ false = ground arith in
      let enough' : ltb size' header_size ≡ false = ground arith in
      let w1 : World H K = record {
        users = set_entry x.id x.user_data w.users;
        heap = set_name x.user_data name w.heap;
        host = q.after;
      } in
      let renamed : find_user q.y.user_data w1.heap ≡ some (record u { username = name }) =
        ap (λ a. find_user a w1.heap) q.same_user
        ∙ find_user-set_name x.user_data x.user_data name u w.heap f
        ∙ rw (==_refl x.user_data) refl in
      rw (enough, kind, handle_login_lem engine_send p login_bytes w h ne f c q, enough', kind')
        (long_name_stops p message_bytes w1 q.lives (λ e. ne (sym q.same_user ∙ e)) renamed long)
