-- ===== src/Chat/Dangling.antt =====
-- Examples/ChatServer/ChatServer.h: what becomes of a user who logs in with an empty name.
use kancho_net.Common.{
  ==_refl, Option-cases, Bool-cases, inl, inr, ℕ, ◌≤◌, ◌≡◌, ◌≢◌, refl, ap, ◌∙◌, Bool, false, List,
  [], ◌∷◌, none, some, arith, ◌==◌, ltb, drop,
}
use kancho_net.Session.{Session}
use kancho_net.Manager.{Manager, Address}
use kancho_net.Net.{Outcome, ok, fault, hang, no_fuel, and_then}
use kancho_net.Host.{Host, lookup}
use kancho_net.Host as Host
use kancho_net.Host.Access.{Holds, changed}
use kancho_net.Chat.Protocol.{header_size, packet_type, login_type, c_string}
use kancho_net.Chat.Server.{
  ChatUser, World, find_user, set_name, free_user, set_entry, user_at, on_host, ◌>>◌, is_nil,
  delete_user, set_user_data, on_disconnect, send_each, broadcast_message, on_receive,
}
use kancho_net.Chat.Leave.{without_user, on_disconnect_lem}
use kancho_net.Chat.Login.{
  lookup-set_entry, find_user-set_name, response, Answers, handle_login_lem,
}

find_user-free_user : (a : ℕ) (h : List (ℕ × ChatUser)) → find_user a (free_user a h) ≡ none
unfolding find_user free_user
find_user-free_user a [] = refl
find_user-free_user a ((b, u) ∷ h) = ground (arith, find_user-free_user a h)

module _ {H K : Type 0} where
  -- Where nothing that follows a step of the network model returns, the whole does not return.
  on_host_stuck :
      {A B : Type 0} (w : World H K) (f : A → World H K → Outcome B)
      → ((a : A) (s : Host H K) (r : B) → f a (record w { host = s }) ≢ ok r)
      → (o : Outcome (A × Host H K)) (r : B)
      → and_then
          (and_then {B = A × World H K} o (λ q. ok (q.0, record w { host = q.1 })))
          (λ q. f q.0 q.1)
        ≢ ok r
  on_host_stuck w f h (ok (a, s)) r = h a s r
  on_host_stuck w f h fault r = λ e. cc
  on_host_stuck w f h hang r = λ e. cc
  on_host_stuck w f h no_fuel r = λ e. cc

  reads_freed :
      {A : Type 0} (b : ℕ) (f : ChatUser → World H K → Outcome A) (w : World H K) (r : A)
      → find_user b w.heap ≡ none
      → and_then (user_at b w) (λ q. f q.0 q.1) ≢ ok r
  unfolding user_at
  reads_freed b f w r gone = rw gone (λ e. cc)

  module _ (engine_send : Address → List ℕ → Host.Run H K Bool) where
    -- A broadcast that comes to a user who is freed does not return.
    pub send_each_dangling :
        (packet : List ℕ) (id a : ℕ) (m : List (ℕ × ℕ)) (w : World H K) (r : Unit {0} × World H K)
        → lookup id m ≡ some a
        → find_user a w.heap ≡ none
        → send_each engine_send packet m w ≢ ok r
    unfolding send_each lookup user_at
    send_each_dangling packet id a [] w r e gone = λ x. cc
    send_each_dangling packet id a ((j, b) ∷ m) w r e gone =
        let next = λ (u : ChatUser).
          on_host (engine_send u.session packet) >> send_each engine_send packet m in
        elim (Bool-cases (j == id)) [
          | inl here ↦
              let same : b ≡ a = ground (arith, here, e) in
              reads_freed b next w r (ap (λ c. find_user c w.heap) same ∙ gone)
          | inr there ↦
              let later : lookup id m ≡ some a = ground (arith, there, e) in
              elim (Option-cases (find_user b w.heap)) [
                | inl freed ↦ reads_freed b next w r freed
                | inr (u, found) ↦ rw found (
                    on_host_stuck w (λ _. send_each engine_send packet m)
                      (λ _ s t.
                        send_each_dangling packet id a m (record w { host = s }) t later gone)
                      (engine_send u.session packet w.host) r)
              ]
        ]

    -- Let a session live whose user is allocated, and let the Send of the response to a login return and leave
    -- the session its id and user. If a login packet with an empty name comes from it and its connection
    -- then ends, both callbacks return; the user is deleted but stays in the map. No broadcast returns while
    -- the map and the users that are allocated are as these two callbacks leave them, whatever becomes
    -- of the network model.
    pub empty_login_dangles :
        {x : Session} {m : Manager} {u : ChatUser} (p : Address) (data_bytes : List ℕ) (size : ℕ)
        (w : World H K)
        → header_size ≤ size
        → packet_type data_bytes ≡ login_type
        → c_string (drop header_size data_bytes) ≡ some []
        → Holds p x m w.host
        → x.user_data ≢ 0
        → find_user x.user_data w.heap ≡ some u
        → Answers engine_send p response x w.host
        → (w' : World H K) × ((on_receive engine_send p data_bytes size >> on_disconnect p) w
            ≡ ok (tt, w'))
          × ((s : Host H K) (packet : List ℕ) (r : Unit {0} × World H K)
              → broadcast_message engine_send packet (record w' { host = s }) ≢ ok r)
    unfolding on_receive on_disconnect user_at is_nil delete_user set_user_data broadcast_message
    empty_login_dangles {x} {u = u} p data_bytes size w big kind name h ne f q =
        let w1 : World H K = record {
          users = set_entry x.id x.user_data w.users;
          heap = set_name x.user_data [] w.heap;
          host = q.after;
        } in
        let w2 : World H K = record {
          users = w1.users;
          heap = free_user x.user_data w1.heap;
          host = changed p without_user q.n q.after;
        } in
        let enough : ltb size header_size ≡ false = ground arith in
        let live : (x.user_data == 0) ≡ false = ground arith in
        let renamed : find_user x.user_data w1.heap ≡ some (record u { username = [] }) =
          find_user-set_name x.user_data x.user_data [] u w.heap f
          ∙ rw (==_refl x.user_data) refl in
        (
          w2,
          rw (enough, kind, handle_login_lem engine_send p data_bytes w h ne f name q)
              (on_disconnect_lem p x.user_data w1 q.lives q.same_user ne renamed),
          λ s packet r.
              send_each_dangling packet x.id x.user_data w2.users (record w2 { host = s }) r
                (lookup-set_entry x.id x.user_data x.id w.users ∙ rw (==_refl x.id) refl)
                (find_user-free_user x.user_data w1.heap),
        )
