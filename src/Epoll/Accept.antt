-- ===== src/Epoll/Accept.antt =====
-- KanchoNet/Network/EpollModel.cpp, ProcessAccept: what becomes of one accepted connection.
use kancho_net.Common.{
  ◌+◌, ◌-◌, ◌^◌, ◌<◌, ◌≤◌, ◌≡◌, ◌≢◌, refl, ◌⊎◌, inl, inr, true, false, ◌∷◌, none, some, arith, ◌==◌,
  leb, Bool-cases, leb→le, leb→lt, length, ==_refl,
}
use kancho_net.Types.{Socket, invalid_socket, connected}
use kancho_net.Session.{Session, is_connected, set_state, default_config}
use kancho_net.Manager.{Manager, Address, deref, add_session}
use kancho_net.Manager.Ids
use kancho_net.Manager.Live.{Apart, length-modify}
use kancho_net.Manager.Admit.{admitted, admit_lem}
use kancho_net.Net.{
  Outcome, ok, and_then, Kernel, union_data, closes, shut, unwatches, watches, for_input,
}
use kancho_net.Host.{lookup, forget, the_manager, call, session_at}
use kancho_net.Epoll.State.{Epoll, App}
use kancho_net.Epoll.Sockets.{invoke, register_socket, close_session, close_socket, shutdown_socket}
use kancho_net.Epoll.Io.{accept_client}
use kancho_net.Host.Access.{
  Owns, Owns-Holds, Holds, changed, managed, changed-Owns, session_at_lem, change_session_lem,
}
use kancho_net.Host.Gone.{lookup-forget}
use kancho_net.Epoll.Gone.{unregister_lem}

-- The state in which the accepted session `x`, at `a`, is known by its socket and is watched.
pub record Welcomed {K : Type 0} (a : Address) (socket : Socket) (m : Manager) (s u : Epoll K)
    : Type 0 where
  pub x : Session
  pub n : Manager
  pub lives : Owns a x n u
  pub one_more : length n.entries ≡ length m.entries + 1
  pub its_socket : x.socket ≡ socket
  pub ready : is_connected x ≡ true
  pub unlocked : x.locked ≡ false
  pub mapped : lookup socket u.socket_map ≡ some a
  pub watched : u.log ≡ watches socket for_input ∷ s.log

-- A session that the operating system could not watch is cut off, and the manager still counts it.
pub record Leaked {K : Type 0} (socket : Socket) (m : Manager) (s t : Epoll K) : Type 0 where
  pub n : Manager
  pub managed_by : t.manager ≡ some n
  pub one_more : length n.entries ≡ length m.entries + 1
  pub unmapped : lookup socket t.socket_map ≡ none
  pub closed :
      t.log ≡ closes socket ∷ shut socket ∷ unwatches socket ∷ watches socket for_input ∷ s.log

module _ {K : Type 0} (kernel : Kernel K) (app : App K) where
  pub close_session_lem :
      {p : Address} {x : Session} {m : Manager} {s : Epoll K}
      → Holds p x m s
      → p ≢ 0
      → x.socket ≢ invalid_socket
      → close_session kernel app p s
        ≡ ok (
          tt,
          record s {
            socket_map = forget x.socket s.socket_map;
            kernel_state = (kernel.epoll_del s.kernel_state x.socket).1;
            log = closes x.socket ∷ shut x.socket ∷ unwatches x.socket ∷ s.log;
          },
        )
  unfolding close_session shutdown_socket close_socket
  close_session_lem {p} {x} {m} {s} h ne valid =
      let null : (p == 0) ≡ false = ground arith in
      let real : (x.socket == invalid_socket) ≡ false = ground arith in
      rw
        (
          null,
          session_at_lem h,
          unregister_lem kernel app x.socket
              (record s { socket_map = forget x.socket s.socket_map }),
          real,
        )
        refl

  -- The callback on a new session, and the read of the session for the log after it.
  abbrev pub announced : Address → Epoll K → Outcome (Unit {0} × Epoll K)
  announced a u =
      and_then (invoke kernel app app.on_accept a u)
        (λ r. and_then (session_at a r.1) (λ q. ok (tt, q.1)))

  register_lem :
      (fd : Socket) (p : Address) (s : Epoll K)
      → let (b, k) = kernel.epoll_add s.kernel_state fd for_input (union_data p fd) in
        register_socket kernel app fd p for_input s
        ≡ ok (b, record s { kernel_state = k; log = watches fd for_input ∷ s.log })
  unfolding register_socket call
  register_lem fd p s = refl

  accepted :
      {m : Manager} {s : Epoll K} (socket : Socket)
      → s.manager ≡ some m
      → Ids.IsValid m
      → Apart m.entries
      → m.next_session_id < 2 ^ 64 - 1
      → socket ≢ invalid_socket
      → (kernel.new_address s.kernel_state).0 ≢ 0
      → deref (kernel.new_address s.kernel_state).0 m.entries ≡ none
      → length m.entries < m.max_sessions
      → let (a, k) = kernel.new_address s.kernel_state in
        (((kernel.epoll_add k socket for_input (union_data a socket)).0 ≡ true)
          × (u : Epoll K) × Welcomed a socket m s u
          × (accept_client kernel app socket s ≡ announced a u))
        ⊎ (((kernel.epoll_add k socket for_input (union_data a socket)).0 ≡ false)
            × (t : Epoll K) × (accept_client kernel app socket s ≡ ok (tt, t))
            × Leaked socket m s t)
  unfolding accept_client call the_manager lookup set_state is_connected
  accepted {m} {s} socket managed_by v apart room valid ne fresh free =
      let a = (kernel.new_address s.kernel_state).0 in
      let k = (kernel.new_address s.kernel_state).1 in
      let (x, added, f, apart', entry) =
        admit_lem socket default_config a v apart ne fresh free room (omega arith) in
      let s1 : Epoll K = record s { manager = some (admitted m a x); kernel_state = k } in
      let own : Owns a x (admitted m a x) s1 = record {
        managed_by = refl;
        apart = apart';
        entry = rw f.its_id entry;
      } in
      let o = changed-Owns (set_state connected) own refl in
      let s2 = changed a (set_state connected) (admitted m a x) s1 in
      let s3 : Epoll K = record s2 { socket_map = (socket, a) ∷ forget socket s2.socket_map } in
      let (b, k') = kernel.epoll_add s3.kernel_state socket for_input (union_data a socket) in
      let u : Epoll K = record s3 { kernel_state = k'; log = watches socket for_input ∷ s3.log } in
      let o' : Owns a (set_state connected x) (managed a (set_state connected) (admitted m a x)) u =
        record { managed_by = refl; apart = o.apart; entry = o.entry } in
      elim (Bool-cases
        (kernel.epoll_add s3.kernel_state socket for_input (union_data a socket)).0) [
          | inl good ↦ inl (
            good,
            u,
            record {
              x = set_state connected x;
              n = managed a (set_state connected) (admitted m a x);
              lives = o';
              one_more =
                  ground (arith, length-modify a (set_state connected) (admitted m a x).entries);
              its_socket = f.its_socket;
              ready = refl;
              unlocked = f.unlocked;
              mapped = rw (==_refl socket) refl;
              watched = refl;
            },
            rw
                (
                  managed_by,
                  added,
                  change_session_lem (set_state connected) (Owns-Holds own),
                  register_lem socket a s3,
                  good,
                )
                refl,
          )
          | inr bad ↦
              let here = f.its_socket in
              inr (
                bad,
                record u {
                  socket_map = forget socket u.socket_map;
                  kernel_state = (kernel.epoll_del u.kernel_state socket).1;
                  log = closes socket ∷ shut socket ∷ unwatches socket ∷ u.log;
                },
                rw
                    (
                      managed_by,
                      added,
                      change_session_lem (set_state connected) (Owns-Holds own),
                      register_lem socket a s3,
                      bad,
                      close_session_lem (Owns-Holds o') ne (rw here valid),
                      here,
                    )
                    refl,
                record {
                  n = managed a (set_state connected) (admitted m a x);
                  managed_by = refl;
                  one_more =
                      ground
                        (arith, length-modify a (set_state connected) (admitted m a x).entries);
                  unmapped = lookup-forget socket u.socket_map;
                  closed = refl;
                },
              )
        ]

  -- An accepted connection is closed again if the manager is full, which changes no session. Otherwise
  -- it becomes a session, connected and unlocked, in the manager and under its socket; if the
  -- operating system watches it the callback is called with it, and if not its descriptor is closed
  -- while its place in the manager stays taken. The address of the new session is one where none lives.
  pub accept_client_lem :
      {m : Manager} {s : Epoll K} (socket : Socket)
      → s.manager ≡ some m
      → Ids.IsValid m
      → Apart m.entries
      → m.next_session_id < 2 ^ 64 - 1
      → socket ≢ invalid_socket
      → (kernel.new_address s.kernel_state).0 ≢ 0
      → deref (kernel.new_address s.kernel_state).0 m.entries ≡ none
      → let (a, k) = kernel.new_address s.kernel_state in
        ((m.max_sessions ≤ length m.entries)
          × (accept_client kernel app socket s
              ≡ ok (
                tt,
                record s { manager = some m; kernel_state = k; log = closes socket ∷ s.log },
              )))
        ⊎ ((length m.entries < m.max_sessions)
            × ((((kernel.epoll_add k socket for_input (union_data a socket)).0 ≡ true)
                  × (u : Epoll K) × Welcomed a socket m s u
                  × (accept_client kernel app socket s ≡ announced a u))
                ⊎ (((kernel.epoll_add k socket for_input (union_data a socket)).0 ≡ false)
                    × (t : Epoll K) × (accept_client kernel app socket s ≡ ok (tt, t))
                    × Leaked socket m s t)))
  unfolding accept_client call the_manager add_session
  accept_client_lem {m} {s} socket managed_by v apart room valid ne fresh =
      elim (Bool-cases (leb m.max_sessions (length m.entries))) [
        | inl full ↦ inl (leb→le _ _ full, rw (managed_by, full) refl)
        | inr free ↦ inr (
          leb→lt _ _ free,
          accepted socket managed_by v apart room valid ne fresh (leb→lt _ _ free),
        )
      ]
