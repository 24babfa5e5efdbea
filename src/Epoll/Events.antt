-- ===== src/Epoll/Events.antt =====
-- KanchoNet/Network/EpollModel.cpp, ProcessIO: which session an event reaches.
use kancho_net.Common.{
  ℕ, suc, ◌%◌, ◌^◌, ◌<◌, ◌≡◌, ◌≢◌, refl, ◌↔◌, inl, inr, true, false, ◌||◌, Bool, List, ◌∷◌, sym, ap,
  subst, ◌∙◌, none, some, arith, ◌==◌, Bool-cases, Option-cases,
}
use kancho_net.Types.{Socket, default_buffer_size}
use kancho_net.Session.{Session, is_connected, is_disconnected}
use kancho_net.Manager.{Manager, Address, deref}
use kancho_net.Net.{Outcome, ok, fault, hang, no_fuel, Kernel, Event, closed, union_data, data_fd}
use kancho_net.Host.{call, lookup, lock_session, session_at}
use kancho_net.Epoll.State.{Epoll, App}
use kancho_net.Epoll.Sockets.{process_disconnect, register_socket}
use kancho_net.Epoll.Io.{process_event, process_receive, receive_loop, process_send}
use kancho_net.Host.Access.{Owns, Owns-Holds, Holds, session_at_lem, session_at_gone}
use kancho_net.Epoll.Gone.{Gentle, process_disconnect_lem}

-- What `RegisterSocket` stores can be read back as the descriptor, but it is the session's address only
-- if the descriptor is the low half of that address.
pub union_data_lem :
    (p : Address) (fd : Socket)
    → fd < 2 ^ 32
    → (data_fd (union_data p fd) ≡ fd) × ((union_data p fd ≡ p) ↔ (fd ≡ p % 2 ^ 32))
union_data_lem p fd small = (omega arith, (λ e. omega arith, λ e. omega arith))

module _ {K : Type 0} (kernel : Kernel K) (app : App K) where
  receive_gone :
      (fuel : ℕ) (p : Address) (s : Epoll K)
      → (p == 0) ≡ false
      → session_at p s ≡ fault
      → process_receive kernel app fuel p s ≡ fault
  unfolding process_receive
  receive_gone fuel p s null gone = rw (null, gone) refl

  send_gone :
      (fuel : ℕ) (p : Address) (s : Epoll K)
      → (p == 0) ≡ false
      → session_at p s ≡ fault
      → process_send kernel app fuel p s ≡ fault
  unfolding process_send lock_session
  send_gone fuel p s null gone = rw (null, gone) refl

  disconnect_gone :
      (p : Address) (s : Epoll K)
      → (p == 0) ≡ false
      → session_at p s ≡ fault
      → process_disconnect kernel app p s ≡ fault
  unfolding process_disconnect
  disconnect_gone p s null gone = rw (null, gone) refl

  receive_closed :
      {p : Address} {x : Session} {m : Manager} {s : Epoll K} (fuel : ℕ) (k : K)
      → Holds p x m s
      → (p == 0) ≡ false
      → is_connected x ≡ true
      → kernel.recv s.kernel_state x.socket default_buffer_size ≡ (closed, k)
      → process_receive kernel app (suc fuel) p s
        ≡ process_disconnect kernel app p (record s { kernel_state = k })
  unfolding process_receive receive_loop call
  receive_closed fuel k h null live answer =
      rw (null, session_at_lem h, live, session_at_lem h, answer) refl

  at_no_session :
      {m : Manager} (s : Epoll K) (fuel : ℕ) (ev : Event) (p : Address) (fd : Socket)
      → s.manager ≡ some m
      → fd < 2 ^ 32
      → fd ≢ s.listen_socket
      → ev.data_word ≡ union_data p fd
      → union_data p fd ≢ 0
      → deref (union_data p fd) m.entries ≡ none
      → (ev.error_or_hangup || ev.readable || ev.writable) ≡ true
      → process_event kernel app fuel ev s ≡ fault
  unfolding process_event
  at_no_session {m} s fuel ev p fd managed_by small client word real gone flags =
      let w = union_data p fd in
      let not_listener : (data_fd w == s.listen_socket) ≡ false =
        ground (arith, (union_data_lem p fd small).0) in
      let not_null : (w == 0) ≡ false = ground arith in
      let no_session = session_at_gone w m s managed_by gone in
      elim (Bool-cases ev.error_or_hangup) [
        | inl err ↦ rw (word, not_listener, not_null, err) (disconnect_gone w s not_null no_session)
        | inr fine ↦ elim (Bool-cases ev.readable) [
          | inl r ↦
              rw (word, not_listener, not_null, fine, r, receive_gone fuel w s not_null no_session)
                refl
          | inr quiet ↦
              let w_flag : ev.writable ≡ true = ground arith in
              rw (word, not_listener, not_null, fine, quiet, w_flag)
                (send_gone fuel w s not_null no_session)
        ]
      ]

  -- What follows when an event's word is that of a session which the readable half destroys.
  used_after :
      {p : Address} {x : Session} {m : Manager} {s : Epoll K} (fuel : ℕ) (ev : Event) (k : K)
      → Gentle kernel app
      → Owns p x m s
      → p ≢ 0
      → is_connected x ≡ true
      → ev.data_word ≡ p
      → data_fd p ≢ s.listen_socket
      → ev.error_or_hangup ≡ false
      → ev.readable ≡ true
      → ev.writable ≡ true
      → kernel.recv s.kernel_state x.socket default_buffer_size ≡ (closed, k)
      → process_event kernel app (suc fuel) ev s ≡ fault
  unfolding process_event is_connected is_disconnected
  used_after {p} {x} {m} {s} fuel ev k gentle o ne live word client fine r w answer =
      let not_listener : (data_fd p == s.listen_socket) ≡ false = ground arith in
      let not_null : (p == 0) ≡ false = ground arith in
      let s1 : Epoll K = record s { kernel_state = k } in
      let o1 : Owns p x m s1 = record {
        managed_by = o.managed_by;
        apart = o.apart;
        entry = o.entry;
      } in
      let still : is_disconnected x ≡ false = ground arith in
      let (t, e, g) = process_disconnect_lem kernel app gentle o1 ne still in
      let gone = session_at_gone p g.n t g.managed_by (ground (arith, g.alive p)) in
      rw
        (
          word,
          not_listener,
          not_null,
          fine,
          r,
          receive_closed fuel k (Owns-Holds o) not_null live answer,
          e,
          w,
        )
        (send_gone (suc fuel) p t not_null gone)

-- The operating system with a memory of the word that each descriptor was last registered with, which is
-- what an event of the descriptor brings back.
abbrev pub remember : {K : Type 0} → Kernel K → Kernel (K × List (Socket × ℕ))
remember kernel = record {
  create_socket = λ k. let (a, l) = kernel.create_socket k.0 in (a, (l, k.1));
  bind = λ k fd port. let (a, l) = kernel.bind k.0 fd port in (a, (l, k.1));
  listen = λ k fd backlog. let (a, l) = kernel.listen k.0 fd backlog in (a, (l, k.1));
  accept = λ k fd. let (a, l) = kernel.accept k.0 fd in (a, (l, k.1));
  recv = λ k fd n. let (a, l) = kernel.recv k.0 fd n in (a, (l, k.1));
  send = λ k fd b. let (a, l) = kernel.send k.0 fd b in (a, (l, k.1));
  epoll_create = λ k. let (a, l) = kernel.epoll_create k.0 in (a, (l, k.1));
  epoll_add = λ k fd mask w. let (a, l) = kernel.epoll_add k.0 fd mask w in (a, (l, (fd, w) ∷ k.1));
  epoll_mod = λ k fd mask w. let (a, l) = kernel.epoll_mod k.0 fd mask w in (a, (l, (fd, w) ∷ k.1));
  epoll_del = λ k fd. let (a, l) = kernel.epoll_del k.0 fd in (a, (l, k.1));
  epoll_wait = λ k t. let (a, l) = kernel.epoll_wait k.0 t in (a, (l, k.1));
  new_address = λ k. let (a, l) = kernel.new_address k.0 in (a, (l, k.1));
}

-- `RegisterSocket` has run in the state `s` for the live session `x` at `p`, a client's, and has left `t`.
pub record Registered {K : Type 0} (kernel : Kernel K) (app : App (K × List (Socket × ℕ)))
    (p : Address) (x : Session) (m : Manager) (s t : Epoll (K × List (Socket × ℕ))) : Type 0 where
  pub answer : Bool
  pub mask : ℕ
  pub lives : Owns p x m s
  pub real : p ≢ 0
  pub small : x.socket < 2 ^ 32
  pub some_fd : x.socket ≢ 0
  pub client : x.socket ≢ s.listen_socket
  pub registers : register_socket (remember kernel) app x.socket p mask s ≡ ok (answer, t)

state_of : {A S : Type 0} → S → Outcome (A × S) → S
state_of s (ok r) = r.1
state_of s fault = s
state_of s hang = s
state_of s no_fuel = s

first_word :
    {v w : ℕ} (fd : Socket) (l : List (Socket × ℕ)) → lookup fd ((fd, v) ∷ l) ≡ some w → w ≡ v
unfolding lookup
first_word fd l e = ground (arith, e)

some_word : (p fd : ℕ) → fd ≢ 0 → union_data p fd ≢ 0
some_word p fd ne e = ne (omega arith)

module _ {K : Type 0} (kernel : Kernel K) (app : App (K × List (Socket × ℕ))) where
  -- The state after it, and the word that is stored for the session.
  registered_lem :
      {p : Address} {x : Session} {m : Manager} {s t : Epoll (K × List (Socket × ℕ))} (w : ℕ)
      → (r : Registered kernel app p x m s t) → lookup x.socket t.kernel_state.1 ≡ some w
      → (w ≡ union_data p x.socket) × (t.manager ≡ some m) × (t.listen_socket ≡ s.listen_socket)
  unfolding register_socket call state_of
  registered_lem {p} {x} {m} {s} {t} w r stored =
      subst
        (λ u.
          lookup x.socket u.kernel_state.1 ≡ some w
          → (w ≡ union_data p x.socket)
            × (u.manager ≡ some m)
            × (u.listen_socket ≡ s.listen_socket))
        (ap (state_of s) r.registers)
        (λ at_head. (first_word x.socket _ at_head, r.lives.managed_by, refl)) stored

  -- The word that `RegisterSocket` stores for a client is that of its own session with the low half replaced
  -- by the descriptor. Unless the descriptor is that low half, and if the word is not by chance the address
  -- of another live session, an event of the client with any of its flags set is undefined.
  -- The operating system is taken to give back with an event the word that was stored; the descriptor has
  -- 32 bits, and is neither 0 nor the one that listens.
  pub misdirected_event :
      {p : Address} {x : Session} {m : Manager} {s t : Epoll (K × List (Socket × ℕ))} (fuel : ℕ)
      (ev : Event)
      → Registered kernel app p x m s t
      → lookup x.socket t.kernel_state.1 ≡ some ev.data_word
      → x.socket ≢ p % 2 ^ 32
      → ((y : Session) → deref ev.data_word m.entries ≡ some y → ev.data_word ≡ p)
      → (ev.error_or_hangup || ev.readable || ev.writable) ≡ true
      → process_event (remember kernel) app fuel ev t ≡ fault
  misdirected_event {p} {x} {m} {s} {t} fuel ev r stored other alone flags =
      let (word, managed_by, same) = registered_lem ev.data_word r stored in
      let elsewhere : ev.data_word ≢ p =
        λ e. other ((union_data_lem p x.socket r.small).1.0 (sym word ∙ e)) in
      let nobody : deref (union_data p x.socket) m.entries ≡ none =
        ap (λ w. deref w m.entries) (sym word)
        ∙ elim (Option-cases (deref ev.data_word m.entries)) [
          | inl none_there ↦ none_there
          | inr (y, found) ↦ absurd (elsewhere (alone y found))
        ] in
      at_no_session (remember kernel) app t fuel ev p x.socket managed_by r.small
        (λ e. r.client (e ∙ same)) word (λ e. some_word p x.socket r.some_fd e) nobody flags

  -- Where the descriptor of a registered client is the low half of its session's address, the word stored
  -- for it is that address. If the session is connected, an event of the client says both readable and
  -- writable, with no error, and `recv` answers that the peer has closed the connection, then the session
  -- is destroyed by the first half of the event and used by the second, which is undefined. The operating
  -- system is taken to give back with an event the word that was stored, and the disconnect callback to
  -- leave the sessions; the descriptor has 32 bits, and is neither 0 nor the one that listens.
  pub closed_then_writable :
      {p : Address} {x : Session} {m : Manager} {s t : Epoll (K × List (Socket × ℕ))} (fuel : ℕ)
      (ev : Event) (k : K × List (Socket × ℕ))
      → Gentle (remember kernel) app
      → Registered kernel app p x m s t
      → lookup x.socket t.kernel_state.1 ≡ some ev.data_word
      → x.socket ≡ p % 2 ^ 32
      → is_connected x ≡ true
      → ev.error_or_hangup ≡ false
      → ev.readable ≡ true
      → ev.writable ≡ true
      → (remember kernel).recv t.kernel_state x.socket default_buffer_size ≡ (closed, k)
      → process_event (remember kernel) app (suc fuel) ev t ≡ fault
  closed_then_writable {p} {x} {m} {s} {t} fuel ev k gentle r stored low live fine rd wr answer =
      let (word, managed_by, same) = registered_lem ev.data_word r stored in
      let (fd, back) = union_data_lem p x.socket r.small in
      let its_own : union_data p x.socket ≡ p = back.1 low in
      let o : Owns p x m t = record {
        managed_by = managed_by;
        apart = r.lives.apart;
        entry = r.lives.entry;
      } in
      used_after (remember kernel) app fuel ev k gentle o r.real live (word ∙ its_own)
        (λ e. r.client (sym fd ∙ ap data_fd its_own ∙ e ∙ same)) fine rd wr answer
