-- ===== src/Iocp/Down.antt =====
-- KanchoNet/Network/IOCPModel.cpp: what Shutdown leaves.
use kancho_net.Common.{◌≡◌, ◌≢◌, refl, true, false, List, [], ◌∷◌, none, some, arith, ◌==◌}
use kancho_net.Manager.{Manager, Entry}
use kancho_net.Manager
use kancho_net.Manager.Live.{Apart}
use kancho_net.Net.{ok, Kernel, Action, shut, closes, ends_network}
use kancho_net.Host.{call, the_manager}
use kancho_net.Host.Access.{Holds, session_at_lem}
use kancho_net.Epoll.Down.{Live, all-Live}
use kancho_net.Windows.{Windows, invalid_socket, cleanup_network, shutdown_socket}
use kancho_net.Iocp.State.{Iocp}
use kancho_net.Iocp.Post.{close_session}
use kancho_net.Iocp.Control.{shutdown, close_all}
use kancho_net.Iocp.Contexts.{close_valid}
use kancho_net.Iocp.Lifecycle.{IsUp, close_port_lem}

-- The sockets of the sessions, which are valid.
abbrev pub Valid : List Entry → Type 0
Valid [] = Unit {0}
Valid (e ∷ es) = (e.session.socket ≢ invalid_socket) × Valid es

-- The log once each session of a list has been shut and closed.
unfoldable pub closed_sessions : List Entry → List Action → List Action
closed_sessions [] l = l
closed_sessions (e ∷ es) l =
    closed_sessions es (closes e.session.socket ∷ shut e.session.socket ∷ l)

module _ {K : Type 0} (kernel : Kernel K) (windows : Windows K) where
  close_all_lem :
      (es : List Entry) (m : Manager) (s : Iocp K)
      → s.manager ≡ some m
      → Live es m
      → Valid es
      → close_all kernel windows es s ≡ ok (tt, record s { log = closed_sessions es s.log })
  unfolding close_all closed_sessions close_session shutdown_socket
  close_all_lem [] m s here l v = refl
  close_all_lem (e ∷ es) m s here (ne, at, l) (valid, v) =
      let null : (e.address == 0) ≡ false = ground arith in
      let real : (e.session.socket == invalid_socket) ≡ false = ground arith in
      let h : Holds e.address e.session m s = record { managed_by = here; alive = at } in
      let fd = e.session.socket in
      rw (null, session_at_lem h, real, close_valid (record s { log = shut fd ∷ s.log }) valid)
        (close_all_lem es m (record s { log = closes fd ∷ shut fd ∷ s.log }) here l v)

  -- `Shutdown` of a model that is up returns. It has shut and closed the socket of each session, the listening
  -- socket and the port, forgotten the sessions, and cleaned Winsock up. The contexts of the requests that
  -- were under way stay allocated.
  pub shutdown_closes :
      {s : Iocp K} {m : Manager}
      → (u : IsUp s) → s.manager ≡ some m
      → Apart m.entries
      → Valid m.entries
      → (t : Iocp K) × (shutdown kernel windows s ≡ ok (tt, t))
        × (t.initialized ≡ false)
        × (t.running ≡ false)
        × (t.manager ≡ some (record m { entries = [] }))
        × (t.listen_socket ≡ invalid_socket)
        × (t.handle ≡ record s.handle { handle = none })
        × (t.log
            ≡ ends_network
              ∷ closes u.port
              ∷ closes s.listen_socket
              ∷ closed_sessions m.entries s.log)
  unfolding shutdown the_manager cleanup_network call Manager.clear
  shutdown_closes {s} {m} u here apart v =
      let s1 : Iocp K = record s { initialized = true; running = false; manager = some m } in
      let all = close_all_lem m.entries m s1 refl (all-Live m.entries m apart) v in
      let s2 : Iocp K = record s1 {
        log = closed_sessions m.entries s.log;
        manager = some (record m { entries = [] });
      } in
      let s3 : Iocp K = record s2 {
        log = closes s.listen_socket ∷ s2.log;
        listen_socket = invalid_socket;
      } in
      (
        record s3 {
          initialized = false;
          handle = record s.handle { handle = none };
          kernel_state = windows.cleanup (windows.close_handle u.port s.kernel_state);
          log = ends_network ∷ closes u.port ∷ s3.log;
        },
        rw (u.up, here, all, close_valid s2 u.listener, close_port_lem kernel windows s3 u.has_port)
            refl,
        refl,
        refl,
        refl,
        refl,
        refl,
        refl,
      )
