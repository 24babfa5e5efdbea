-- ===== src/Epoll/Down.antt =====
-- KanchoNet/Network/EpollModel.cpp: what StartListen and Shutdown leave.
use kancho_net.Common.{
  ◌≡◌, ◌≢◌, refl, ◌∙◌, ◌⊎◌, inl, inr, Bool, true, false, ◌||◌, List, [], ◌∷◌, none, some, arith,
  ◌==◌, if◌then◌else◌, Bool-cases,
}
use kancho_net.Types.{Socket, invalid_socket}
use kancho_net.Manager.{Manager, Entry, Address, deref}
use kancho_net.Manager
use kancho_net.Manager.Live.{Apart}
use kancho_net.Net.{
  Outcome, ok, Kernel, Action, opened, shut, closes, watches, rewatches, unwatches, delivers,
  starts_network, ends_network, union_data, for_input,
}
use kancho_net.Host.{call, the_manager, forget}
use kancho_net.Epoll.State.{Epoll, App}
use kancho_net.Epoll.Sockets.{close_socket}
use kancho_net.Epoll.Control.{start_listen, shutdown, close_all}
use kancho_net.Host.Access.{Holds}
use kancho_net.Epoll.Accept.{close_session_lem}
use kancho_net.Epoll.Lifecycle.{IsSound, Equipped}

unfoldable pub is_closed : Socket → List Action → Bool
is_closed fd [] = false
is_closed fd (closes j ∷ l) = (j == fd) || is_closed fd l
is_closed fd (opened j ∷ l) = if j == fd then false else is_closed fd l
is_closed fd (shut j ∷ l) = is_closed fd l
is_closed fd (watches j mask ∷ l) = is_closed fd l
is_closed fd (rewatches j mask ∷ l) = is_closed fd l
is_closed fd (unwatches j ∷ l) = is_closed fd l
is_closed fd (delivers j b ∷ l) = is_closed fd l
is_closed fd (starts_network ∷ l) = is_closed fd l
is_closed fd (ends_network ∷ l) = is_closed fd l

-- The sockets of the sessions, which are valid.
abbrev pub Valid : List Entry → Type 0
Valid [] = Unit {0}
Valid (e ∷ es) = (e.session.socket ≢ invalid_socket) × Valid es

abbrev pub AllClosed : List Entry → List Action → Type 0
AllClosed [] l = Unit {0}
AllClosed (e ∷ es) l = (is_closed e.session.socket l ≡ true) × AllClosed es l

-- The sessions of a list live under a manager.
abbrev pub Live : List Entry → Manager → Type 0
Live [] m = Unit {0}
Live (e ∷ es) m = (e.address ≢ 0) × (deref e.address m.entries ≡ some e.session) × Live es m

Live-push :
    (es : List Entry) (m : Manager) (d : Entry)
    → Apart (d ∷ m.entries)
    → Live es m
    → Live es (record m { entries = d ∷ m.entries })
unfolding deref
Live-push [] m d a l = tt
Live-push (e ∷ es) m d (n, u, a) (ne, at, l) = (ne, ground arith, Live-push es m d (n, u, a) l)

pub all-Live : (es : List Entry) (m : Manager) → Apart es → Live es (record m { entries = es })
unfolding deref
all-Live [] m a = tt
all-Live (e ∷ es) m (n, u, a) =
    (n, ground arith, Live-push es (record m { entries = es }) e (n, u, a) (all-Live es m a))

still_closed :
    (es : List Entry) (l : List Action) (a b : Socket)
    → AllClosed es l
    → AllClosed es (closes a ∷ closes b ∷ l)
unfolding is_closed
still_closed [] l a b c = tt
still_closed (e ∷ es) l a b (d, c) = (ground arith, still_closed es l a b c)

module _ {K : Type 0} (kernel : Kernel K) (app : App K) where
  record Walked (es : List Entry) (m : Manager) (s : Epoll K) (r : Outcome (Unit {0} × Epoll K))
      : Type 0 where
    t : Epoll K
    returns : r ≡ ok (tt, t)
    managed_by : t.manager ≡ some m
    same_listener : t.listen_socket ≡ s.listen_socket
    same_epoll : t.handle ≡ s.handle
    same_running : t.running ≡ s.running
    more_closed : (fd : Socket) → (is_closed fd s.log || is_closed fd t.log) ≡ is_closed fd t.log
    all_closed : AllClosed es t.log

  close_all_lem :
      (es : List Entry) {m : Manager} (s : Epoll K)
      → s.manager ≡ some m
      → Live es m
      → Valid es
      → Walked es m s (close_all kernel app es s)
  unfolding close_all is_closed
  close_all_lem [] s managed_by live valid = record {
    t = s;
    returns = refl;
    managed_by = managed_by;
    same_listener = refl;
    same_epoll = refl;
    same_running = refl;
    more_closed = λ fd. ground arith;
    all_closed = tt;
  }
  close_all_lem (e ∷ es) {m} s managed_by (ne, at, live) (real, valid) =
      let fd = e.session.socket in
      let h : Holds e.address e.session m s = record { managed_by = managed_by; alive = at } in
      let s1 : Epoll K = record s {
        socket_map = forget fd s.socket_map;
        kernel_state = (kernel.epoll_del s.kernel_state fd).1;
        log = closes fd ∷ shut fd ∷ unwatches fd ∷ s.log;
      } in
      let w = close_all_lem es s1 managed_by live valid in
      record {
        t = w.t;
        returns = rw (close_session_lem kernel app h ne real, w.returns) refl;
        managed_by = w.managed_by;
        same_listener = w.same_listener;
        same_epoll = w.same_epoll;
        same_running = w.same_running;
        more_closed = λ j. ground (arith, w.more_closed j);
        all_closed = (ground (arith, w.more_closed fd), w.all_closed);
      }

  -- `Shutdown` of a model that is up, whose sessions live at different addresses and have valid
  -- sockets, returns it down, with no session, and with the socket of every session, the
  -- listening socket and the epoll descriptor closed.
  pub shutdown_lem :
      {s : Epoll K}
      → s.initialized ≡ true
      → (q : Equipped s) → Apart q.m.entries
      → Valid q.m.entries
      → (t : Epoll K) × (shutdown kernel app s ≡ ok (tt, t))
        × IsSound t
        × (t.initialized ≡ false)
        × (t.manager ≡ some (Manager.clear q.m))
        × (t.socket_map ≡ [])
        × AllClosed q.m.entries t.log
        × (is_closed s.listen_socket t.log ≡ true)
        × (is_closed q.fd t.log ≡ true)
  unfolding shutdown the_manager is_closed close_socket
  shutdown_lem {s} up q apart valid =
      let s0 : Epoll K = record s { initialized = true; running = false; manager = some q.m } in
      let w = close_all_lem q.m.entries {m = q.m} s0 refl (all-Live q.m.entries q.m apart) valid in
      let real : (s.listen_socket == invalid_socket) ≡ false = ground (arith, q.listener) in
      (
        record w.t {
          manager = some (Manager.clear q.m);
          socket_map = [];
          listen_socket = invalid_socket;
          handle = none;
          initialized = false;
          log = closes q.fd ∷ closes s.listen_socket ∷ w.t.log;
        },
        rw (up, q.managed_by, w.returns, w.managed_by, w.same_listener, real, w.same_epoll, q.epoll)
            refl,
        record { running_up = inl w.same_running; up = inl refl },
        refl,
        refl,
        refl,
        still_closed q.m.entries w.t.log q.fd s.listen_socket w.all_closed,
        ground arith,
        ground arith,
      )

  still-IsSound :
      {s t : Epoll K}
      → IsSound s
      → t.initialized ≡ s.initialized
      → t.manager ≡ s.manager
      → t.handle ≡ s.handle
      → t.listen_socket ≡ s.listen_socket
      → ((t.running ≡ false) ⊎ (t.initialized ≡ true))
      → IsSound t
  still-IsSound sound i m e l r = record {
    running_up = r;
    up = elim sound.up [
      | inl down ↦ inl (i ∙ down)
      | inr q ↦ inr (record {
        m = q.m;
        managed_by = m ∙ q.managed_by;
        fd = q.fd;
        epoll = e ∙ q.epoll;
        listener = rw l q.listener;
      })
    ];
  }

  -- `StartListen` of a sound model returns and answers whether the model runs afterwards; it
  -- keeps the model sound, and leaves its sessions.
  pub start_listen_lem :
      {s : Epoll K}
      → IsSound s
      → (b : Bool) × (t : Epoll K) × (start_listen kernel app s ≡ ok (b, t))
        × IsSound t
        × (t.running ≡ b)
        × (t.initialized ≡ s.initialized)
        × (t.manager ≡ s.manager)
  unfolding start_listen call
  start_listen_lem {s} sound = elim (Bool-cases s.initialized) [
    | inr down ↦ (false, s, rw down refl, sound, ground (arith, sound.running_up), refl, refl)
    | inl up ↦ elim (Bool-cases s.running) [
      | inl running ↦ (true, s, rw (up, running) refl, sound, running, refl, refl)
      | inr still ↦
          let (answered, k) = kernel.listen s.kernel_state s.listen_socket s.config.backlog in
          let s1 : Epoll K = record s { kernel_state = k } in
          elim (Bool-cases (kernel.listen s.kernel_state s.listen_socket s.config.backlog).0) [
            | inr deaf ↦ (
              false,
              s1,
              rw (up, still, deaf) refl,
              still-IsSound sound refl refl refl refl sound.running_up,
              still,
              refl,
              refl,
            )
            | inl listening ↦
                let added =
                  kernel.epoll_add k s.listen_socket for_input (union_data 0 s.listen_socket) in
                let s2 : Epoll K = record s1 {
                  kernel_state = added.1;
                  log = watches s.listen_socket for_input ∷ s.log;
                } in
                elim (Bool-cases
                  (kernel.epoll_add k s.listen_socket for_input (union_data 0 s.listen_socket)).0) [
                    | inl watched ↦ (
                      true,
                      record s2 { running = true },
                      rw (up, still, listening, watched) refl,
                      still-IsSound sound refl refl refl refl (inr up),
                      refl,
                      refl,
                      refl,
                    )
                    | inr unwatched ↦ (
                      false,
                      s2,
                      rw (up, still, listening, unwatched) refl,
                      still-IsSound sound refl refl refl refl sound.running_up,
                      still,
                      refl,
                      refl,
                    )
                  ]
          ]
    ]
  ]
