-- ===== src/Chat/Callbacks.antt =====
-- Examples/ChatServer/ChatServer.h: the callbacks keep the users in the map alive as long as no name is empty.
use kancho_net.Common.{
  ℕ, ◌≤◌, ◌≡◌, ◌≢◌, refl, ◌∙◌, Bool, true, false, List, [], ◌∷◌, none, some, arith, ◌==◌, ltb,
  if◌then◌else◌, drop, Bool-cases, inl, inr, ==_refl,
}
use kancho_net.Session.{Session}
use kancho_net.Manager.{Manager, Address}
use kancho_net.Host.{Host, forget, call}
use kancho_net.Host as Host
use kancho_net.Host.Access.{Holds, session_at_lem, change_session_lem, changed}
use kancho_net.Chat.Protocol.{
  header_size, packet_type, login_type, message_type, logout_type, c_string,
}
use kancho_net.Chat.Server.{
  ChatUser, World, Run, find_user, set_name, set_entry, user_at, is_nil, set_user_data, erase_user,
  on_accept, on_receive, on_error, handle_logout, handle_login, handle_message, on_disconnect,
}
use kancho_net.Chat.Login.{find_user-set_name, response, Answers, handle_login_lem}
use kancho_net.Chat.Leave.{on_disconnect_lem}
use kancho_net.Chat.Fanout.{no_null, message_reaches_all}
use kancho_net.Chat.Sound.{
  Sound-new, Sound-set_entry, Sound-set_name, Sound-forget, Sound-forget_free, Sound-free_user,
}
use kancho_net.Chat.Linked.{Carries, Linked-carried, Linked-set_name, Linked-new, Linked-free}
use kancho_net.Chat.Occurs.{
  IsSound, Occurs, works, connects, sends_short, sends_unknown, sends_userless, logs_in,
  says_nameless, says, logs_out, leaves, errs_nowhere, errs, Keeps,
}

no_short : {size : ℕ} → header_size ≤ size → ltb size header_size ≡ false
no_short big = ground arith

module _ {H K : Type 0} (new_user : K → ℕ × K)
    (engine_send : Address → List ℕ → Host.Run H K Bool) where
  connects-Keeps :
      {owner : ℕ → ℕ} {x : Session} {m : Manager} {a : ℕ} {k : K} (w : World H K) (p : Address)
      → Holds p x m w.host
      → new_user w.host.kernel_state ≡ (a, k)
      → find_user a w.heap ≡ none
      → IsSound owner w
      → Keeps (λ b. if b == a then x.id else owner b) w (on_accept new_user p)
  unfolding on_accept call set_user_data
  connects-Keeps {x = x} {m = m} {a = a} {k = k} w p h made fresh v =
      let s : Host H K = record w.host { kernel_state = k } in
      let h1 : Holds p x m s = record { managed_by = h.managed_by; alive = h.alive } in
      let u : ChatUser = record { username = []; session = p } in
      let f : Session → Session = λ y. record y { user_data = a } in
      (
        record { users = w.users; heap = (a, u) ∷ w.heap; host = changed p f m s },
        rw (session_at_lem h, made, change_session_lem f h1) refl,
        record {
          entries = Sound-new a x.id u fresh v.entries;
          linked =
              Linked-new s p a h1 fresh
                (λ q y n g. v.linked q y n (record { managed_by = g.managed_by; alive = g.alive }));
        },
      )

  logs_in-Keeps :
      {owner : ℕ → ℕ} {x : Session} {m : Manager} {name : List ℕ} (w : World H K) (p : Address)
      (data_bytes : List ℕ)
      → c_string (drop header_size data_bytes) ≡ some name
      → is_nil name ≡ false
      → Holds p x m w.host
      → x.user_data ≢ 0
      → (q : Answers engine_send p response x w.host) → Carries w.host q.after
      → IsSound owner w
      → Keeps owner w (handle_login engine_send p data_bytes)
  logs_in-Keeps {x = x} {m = m} {name = name} w p data_bytes c named h ne q carries v =
      let a = x.user_data in
      let has = v.linked p x m h ne in
      let renamed : find_user a (set_name a name w.heap) ≡ some (record has.u { username = name }) =
        find_user-set_name a a name has.u w.heap has.allocated ∙ rw (==_refl a) refl in
      (
        record { users = set_entry x.id a w.users; heap = set_name a name w.heap; host = q.after },
        handle_login_lem engine_send p data_bytes w h ne has.allocated c q,
        record {
          entries =
              Sound-set_entry a x.id has.mine renamed named
                (Sound-set_name a name has.allocated named v.entries);
          linked =
              Linked-carried w.host q.after carries
                (Linked-set_name w.host a name has.allocated v.linked);
        },
      )

  logs_out-Keeps :
      {owner : ℕ → ℕ} {x : Session} {m : Manager} (w : World H K) (p : Address)
      → Holds p x m w.host
      → x.user_data ≢ 0
      → IsSound owner w
      → Keeps owner w (handle_logout p)
  unfolding handle_logout user_at erase_user
  logs_out-Keeps {x = x} {m = m} w p h ne v =
      let live = no_null ne in
      let has = v.linked p x m h ne in
      elim (Bool-cases (is_nil has.u.username)) [
        | inl nameless ↦ (w, rw (session_at_lem h, live, has.allocated, nameless) refl, v)
        | inr named ↦ (
          record w { users = forget x.id w.users },
          rw (session_at_lem h, live, has.allocated, named) refl,
          record { entries = Sound-forget x.id v.entries; linked = v.linked },
        )
      ]

  leaves-Keeps :
      {owner : ℕ → ℕ} {x : Session} {m : Manager} (w : World H K) (p : Address)
      → Holds p x m w.host
      → IsSound owner w
      → Keeps owner w (on_disconnect p)
  unfolding on_disconnect
  leaves-Keeps {x = x} {m = m} w p h v = elim (Bool-cases (x.user_data == 0)) [
    | inl userless ↦ (w, rw (session_at_lem h, userless) refl, v)
    | inr real ↦
        let ne : x.user_data ≢ 0 = ground arith in
        let has = v.linked p x m h ne in
        let done = on_disconnect_lem p x.user_data w h refl ne has.allocated in
        (
          _,
          done,
          record {
            entries = elim (Bool-cases (is_nil has.u.username)) [
              | inl nameless ↦
                  rw nameless (Sound-free_user x.user_data has.allocated nameless v.entries)
              | inr named ↦ rw named (Sound-forget_free x.user_data x.id has.mine v.entries)
            ];
            linked = Linked-free w.host p h has v.linked;
          },
        )
  ]

  userless-Keeps :
      {owner : ℕ → ℕ} {x : Session} {m : Manager} (w : World H K) (p : Address)
      (data_bytes : List ℕ) (size : ℕ)
      → header_size ≤ size
      → Holds p x m w.host
      → x.user_data ≡ 0
      → IsSound owner w
      → Keeps owner w (on_receive engine_send p data_bytes size)
  unfolding on_receive handle_login handle_message handle_logout
  userless-Keeps {x = x} w p data_bytes size big h none_there v =
      let enough = no_short big in
      let null : (x.user_data == 0) ≡ true = ground arith in
      (
        w,
        elim (Bool-cases (packet_type data_bytes == login_type)) [
          | inl login ↦ rw (enough, login, session_at_lem h, null) refl
          | inr a ↦ elim (Bool-cases (packet_type data_bytes == message_type)) [
            | inl message ↦ rw (enough, a, message, session_at_lem h, null) refl
            | inr b ↦ elim (Bool-cases (packet_type data_bytes == logout_type)) [
              | inl logout ↦ rw (enough, a, b, logout, session_at_lem h, null) refl
              | inr c ↦ rw (enough, a, b, c) refl
            ]
          ]
        ],
        v,
      )

  -- As long as no one logs in with an empty name, whatever occurs returns and keeps this: each entry of the
  -- map leads to a live user with a name who was made for that id, and each live session to a user of its
  -- own that is allocated, or to none. What occurs are the accept, receive, disconnect and error callbacks
  -- for live sessions, with packets too short or of unknown type, of sessions without a user, of users
  -- without a name, and logins, messages and logouts; and between them the network model's own work.
  -- It is taken that `new` gives a user an address that none has, that the string in a login or message
  -- of a user ends within the memory, that a message and its sender's name fit into a packet, that each
  -- Send returns, and that neither Send nor the network model's work changes the id or the user of a
  -- session or brings a session with a user.
  pub Occurs-Keeps :
      {owner owner' : ℕ → ℕ} {r : Run H K (Unit {0})} (w : World H K)
      → Occurs new_user engine_send owner w r owner'
      → IsSound owner w
      → Keeps owner' w r
  unfolding on_receive on_error handle_message user_at
  Occurs-Keeps w (works t carries) v = (
    record w { host = t },
    refl,
    record { entries = v.entries; linked = Linked-carried w.host t carries v.linked },
  )
  Occurs-Keeps w (connects p h made fresh) v = connects-Keeps w p h made fresh v
  Occurs-Keeps w (sends_short p data_bytes size small) v =
      let short : ltb size header_size ≡ true = ground arith in (w, rw short refl, v)
  Occurs-Keeps w (sends_unknown p data_bytes size big a b c) v =
      let enough = no_short big in
      let x : (packet_type data_bytes == login_type) ≡ false = ground arith in
      let y : (packet_type data_bytes == message_type) ≡ false = ground arith in
      let z : (packet_type data_bytes == logout_type) ≡ false = ground arith in
      (w, rw (enough, x, y, z) refl, v)
  Occurs-Keeps w (sends_userless p data_bytes size big h none_there) v =
      userless-Keeps w p data_bytes size big h none_there v
  Occurs-Keeps w (logs_in p data_bytes size big kind c named h ne q carries) v =
      let enough = no_short big in
      let (w', e, kept) = logs_in-Keeps w p data_bytes c named h ne q carries v in
      (w', rw (enough, kind) e, kept)
  Occurs-Keeps w (says_nameless p data_bytes size big kind h ne f nameless) v =
      let enough = no_short big in
      let live = no_null ne in (w, rw (enough, kind, session_at_lem h, live, f, nameless) refl, v)
  Occurs-Keeps w (says {t = t} p data_bytes size big kind c h ne f named made found st carries) v =
      (
        record w { host = t },
        message_reaches_all engine_send p data_bytes size w big kind h ne f named c made found st,
        record { entries = v.entries; linked = Linked-carried w.host t carries v.linked },
      )
  Occurs-Keeps w (logs_out p data_bytes size big kind h ne) v =
      let enough = no_short big in
      let (w', e, kept) = logs_out-Keeps w p h ne v in (w', rw (enough, kind) e, kept)
  Occurs-Keeps w (leaves p h) v = leaves-Keeps w p h v
  Occurs-Keeps w (errs_nowhere code) v = (w, refl, v)
  Occurs-Keeps w (errs p code h) v = (
    w,
    elim (Bool-cases (p == 0)) [
      | inl null ↦ rw null refl
      | inr real ↦ rw (real, session_at_lem h) refl
    ],
    v,
  )
