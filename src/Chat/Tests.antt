-- ===== src/Chat/Tests.antt =====
-- The theorems on Examples/ChatServer at a server with two sessions, whose Send only writes down what it is
-- given.
use kancho_net.Common.{
  ℕ, ◌≡◌, ◌≢◌, ◌+◌, ◌*◌, refl, Bool, true, false, List, [], ◌∷◌, ◌++◌, some, arith, length, take,
  drop, get_or, replicate, Option, none, ap, subst, ◌∙◌, Bool-cases, inr, inl, ◌==◌, if◌then◌else◌,
}
use kancho_net.Types.{connected}
use kancho_net.Config
use kancho_net.Ring.{Ring}
use kancho_net.Session.{Session, default_config}
use kancho_net.Manager.{Manager, Address, deref}
use kancho_net.Net.{ok, fault, delivers}
use kancho_net.Host.{Host}
use kancho_net.Host as Host
use kancho_net.Host.Access.{Holds}
use kancho_net.Chat.Protocol.{
  c_string, broadcast, broadcast_size, broadcast_type, packet_type, header, strcpy_s,
}
use kancho_net.Chat.Server.{
  World, find_user, is_nil, on_receive, on_disconnect, broadcast_message, ◌>>◌,
}
use kancho_net.Chat.Packets.{broadcast-c_string}
use kancho_net.Chat.Login.{Answers, response}
use kancho_net.Chat.Fanout.{
  no_users, a_user, none_left, one_more, message_reaches_all, long_name_ends,
}
use kancho_net.Chat.Sound.{entry, no_entries}
use kancho_net.Chat.Linked.{HasUser, Linked, Carries}
use kancho_net.Chat.Occurs.{IsSound, logs_in, Keeps}
use kancho_net.Chat.Callbacks.{Occurs-Keeps}
use kancho_net.Chat.Dangling.{empty_login_dangles}

abbrev no_bytes : Ring
no_bytes = record { buffer = 0 ∷ 0 ∷ []; capacity = 2; read_pos = 0; write_pos = 0 }

abbrev session : ℕ → ℕ → Session
session id user = record {
  id = id;
  socket = 7;
  state = connected;
  send_buffer = no_bytes;
  recv_buffer = no_bytes;
  user_data = user;
  is_sending = false;
  config = default_config;
  locked = false;
}

abbrev two : Manager
two = record {
  max_sessions = 10;
  next_session_id = 3;
  entries =
      record { id = 1; address = 4096; session = session 1 64 }
      ∷ record { id = 2; address = 8192; session = session 2 128 }
      ∷ [];
}

abbrev host : Host ℕ ℕ
host = record {
  initialized = true;
  running = true;
  config = Config.defaults;
  listen_socket = 6;
  handle = 5;
  manager = some two;
  socket_map = [];
  kernel_state = 0;
  log = [];
}

abbrev write_down : Address → List ℕ → Host.Run ℕ ℕ Bool
write_down p b s = ok (true, record s { log = delivers p b ∷ s.log })

-- User 128 is "bo", who is logged in; user 64 is not.
abbrev world : World ℕ ℕ
world = record {
  users = (2, 128) ∷ [];
  heap =
      (64, record { username = []; session = 4096 })
      ∷ (128, record { username = 98 ∷ 111 ∷ []; session = 8192 })
      ∷ [];
  host = host;
}

first-Holds : Holds 4096 (session 1 64) two host
unfolding deref
first-Holds = record { managed_by = refl; alive = refl }

second-Holds : Holds 8192 (session 2 128) two host
unfolding deref
second-Holds = record { managed_by = refl; alive = refl }

first-Answers : Answers write_down 4096 response (session 1 64) host
unfolding deref
first-Answers = record {
  answer = true;
  after = record host { log = delivers 4096 response ∷ [] };
  y = session 1 64;
  n = two;
  returns = refl;
  lives = record { managed_by = refl; alive = refl };
  same_id = refl;
  same_user = refl;
}

-- A login with an empty name, one with 40 letters, and the message "hi".
abbrev empty_login : List ℕ
empty_login = 36 ∷ 0 ∷ 1 ∷ 0 ∷ 0 ∷ []

abbrev letters : List ℕ
letters = replicate 40 97

abbrev long_login : List ℕ
long_login = 36 ∷ 0 ∷ 1 ∷ 0 ∷ (letters ++ (0 ∷ []))

abbrev greeting : List ℕ
greeting = 4 ∷ 1 ∷ 3 ∷ 0 ∷ 104 ∷ 105 ∷ 0 ∷ []

abbrev greeted : List ℕ
greeted =
    header broadcast_size broadcast_type
    ++ ((98 ∷ 111 ∷ replicate 30 0) ++ (104 ∷ 105 ∷ replicate 254 0))

greeting-sent : broadcast (98 ∷ 111 ∷ []) (104 ∷ 105 ∷ []) ≡ some greeted
unfolding broadcast strcpy_s
greeting-sent = refl

broadcast-c_string_example :
    (packet : List ℕ) × (broadcast (98 ∷ 111 ∷ []) (104 ∷ 105 ∷ []) ≡ some packet)
    × (length packet ≡ broadcast_size)
    × (get_or packet 0 0 + 256 * get_or packet 1 0 ≡ broadcast_size)
    × (packet_type packet ≡ broadcast_type)
    × (c_string (take 32 (drop 4 packet)) ≡ some (98 ∷ 111 ∷ []))
    × (c_string (drop 36 packet) ≡ some (104 ∷ 105 ∷ []))
unfolding c_string
broadcast-c_string_example =
    broadcast-c_string (98 ∷ 111 ∷ 0 ∷ 5 ∷ []) (104 ∷ 105 ∷ 0 ∷ []) refl refl (omega arith)
      (omega arith)

message_reaches_all_example :
    on_receive write_down 8192 greeting 7 world
    ≡ ok (tt, record world { host = record host { log = delivers 8192 greeted ∷ [] } })
unfolding find_user is_nil c_string packet_type
message_reaches_all_example =
    message_reaches_all write_down 8192 greeting 7 world (omega arith) refl second-Holds
      (omega arith) refl refl refl greeting-sent (a_user refl no_users) (one_more refl none_left)

long_name_ends_example :
    (on_receive write_down 4096 long_login 45 >> on_receive write_down 4096 greeting 7) world
    ≡ fault
unfolding find_user c_string packet_type replicate
long_name_ends_example =
    long_name_ends write_down {name = letters} 4096 long_login greeting 45 7 world (omega arith)
      refl refl (omega arith) (omega arith) refl first-Holds (omega arith) refl first-Answers

empty_login_dangles_example :
    (w' : World ℕ ℕ) × ((on_receive write_down 4096 empty_login 5 >> on_disconnect 4096) world
      ≡ ok (tt, w'))
    × ((s : Host ℕ ℕ) (packet : List ℕ) (r : Unit {0} × World ℕ ℕ)
        → broadcast_message write_down packet (record w' { host = s }) ≢ ok r)
unfolding find_user c_string packet_type
empty_login_dangles_example =
    empty_login_dangles write_down 4096 empty_login 5 world (omega arith) refl refl first-Holds
      (omega arith) refl first-Answers

-- The users were made for the ids of the sessions.
abbrev made_for : ℕ → ℕ
made_for a = if a == 64 then 1 else 2

first-HasUser : HasUser made_for world.heap 4096 (session 1 64)
unfolding find_user
first-HasUser = record {
  u = record { username = []; session = 4096 };
  allocated = refl;
  its_session = refl;
  mine = refl;
}

second-HasUser : HasUser made_for world.heap 8192 (session 2 128)
unfolding find_user
second-HasUser = record {
  u = record { username = 98 ∷ 111 ∷ []; session = 8192 };
  allocated = refl;
  its_session = refl;
  mine = refl;
}

deref_in : Address → Option Manager → Option Session
deref_in p none = none
deref_in p (some m) = deref p m.entries

world-Linked : Linked made_for world.heap host
unfolding deref deref_in
world-Linked p x m h ne =
    let found : deref p two.entries ≡ some x = ap (deref_in p) h.managed_by ∙ h.alive in
    elim (Bool-cases (4096 == p)) [
      | inl a ↦
          let at_p : 4096 ≡ p = ground arith in
          let its : session 1 64 ≡ x = ground (arith, found) in
          subst (λ q. HasUser made_for world.heap q x) at_p
            (subst (HasUser made_for world.heap 4096) its first-HasUser)
      | inr a ↦ elim (Bool-cases (8192 == p)) [
        | inl b ↦
            let at_p : 8192 ≡ p = ground arith in
            let its : session 2 128 ≡ x = ground (arith, found) in
            subst (λ q. HasUser made_for world.heap q x) at_p
              (subst (HasUser made_for world.heap 8192) its second-HasUser)
        | inr b ↦ absurd (ground (arith, found))
      ]
    ]

world-IsSound : IsSound made_for world
unfolding find_user is_nil
world-IsSound = record {
  entries =
      entry {a = 128} {u = record { username = 98 ∷ 111 ∷ []; session = 8192 }} refl refl refl
        no_entries;
  linked = world-Linked;
}

-- Send changes only the log.
first-Carries : Carries host first-Answers.after
unfolding first-Answers
first-Carries p y n h =
    inr (y, n, record { managed_by = h.managed_by; alive = h.alive }, refl, refl)

-- User 64 logs in as "al".
abbrev named_login : List ℕ
named_login = 36 ∷ 0 ∷ 1 ∷ 0 ∷ 97 ∷ 108 ∷ 0 ∷ []

Occurs-Keeps_example : Keeps made_for world (on_receive write_down 4096 named_login 7)
unfolding c_string packet_type is_nil
Occurs-Keeps_example =
    Occurs-Keeps (λ k. (192, k)) write_down world
      (logs_in 4096 named_login 7 (omega arith) refl refl refl first-Holds (λ e. omega arith)
        first-Answers first-Carries)
      world-IsSound
