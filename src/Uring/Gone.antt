-- ===== src/Uring/Gone.antt =====
-- KanchoNet/Network/IOUringModel.cpp, ProcessDisconnect: what is left of the session.
use kancho_net.Common.{◌≡◌, ◌≢◌, refl, ap, Bool, true, false, ◌∷◌, some, arith, ◌==◌, if◌then◌else◌}
use kancho_net.Types.{Socket, invalid_socket, disconnected}
use kancho_net.Session.{Session, is_disconnected, set_state}
use kancho_net.Manager.{Manager, Address, erase, remove_session, has_session}
use kancho_net.Manager.Live.{deref-erase, Apart-modify, deref-modify}
use kancho_net.Net.{ok, closes}
use kancho_net.Host.{forget, the_manager}
use kancho_net.Host.Gone.{IsGone, lookup-forget, find-changed}
use kancho_net.Host.Access.{
  Owns, Owns-Holds, Holds, changed, managed, changed-Holds, session_at_lem, change_session_lem,
}
use kancho_net.Uring.State.{Uring, App}
use kancho_net.Uring.Sockets.{invoke, process_disconnect, close_socket}

-- The callback for a disconnect returns and leaves the sessions, whatever else it does.
abbrev pub Gentle : {K : Type 0} → App K → Type 0
Gentle {K} app =
    (p : Address) (s : Uring K)
    → (t : Uring K) × (invoke app app.on_disconnect p s ≡ ok (tt, t)) × (t.manager ≡ s.manager)

module _ {K : Type 0} (app : App K) where
  pub close_lem :
      (fd : Socket) (s : Uring K)
      → close_socket app fd s
        ≡ ok (tt, record s { log = if fd == invalid_socket then s.log else closes fd ∷ s.log })
  unfolding close_socket
  close_lem fd s = ground arith

  -- A session that is not yet disconnected is destroyed by `ProcessDisconnect`, and no other.
  pub process_disconnect_lem :
      {p : Address} {x : Session} {m : Manager} {s : Uring K}
      → Gentle app
      → Owns p x m s
      → p ≢ 0
      → is_disconnected x ≡ false
      → (t : Uring K) × (process_disconnect app p s ≡ ok (tt, t)) × IsGone p x m t
  unfolding process_disconnect the_manager remove_session has_session set_state
  process_disconnect_lem {p} {x} {m} {s} gentle o ne live =
      let h = Owns-Holds o in
      let s1 = changed p (set_state disconnected) m s in
      let h1 = changed-Holds (set_state disconnected) h in
      let (s2, called, same) = gentle p s1 in
      let m1 = managed p (set_state disconnected) m in
      let here : s2.manager ≡ some m1 = same in
      let fd = x.socket in
      let s3 : Uring K = record s2 { socket_map = forget fd s2.socket_map } in
      let s4 : Uring K = record s3 {
        log = if fd == invalid_socket then s3.log else closes fd ∷ s3.log;
      } in
      let h2 : Holds p (set_state disconnected x) m1 s2 = record {
        managed_by = here;
        alive = h1.alive;
      } in
      let h4 : Holds p (set_state disconnected x) m1 s4 = record {
        managed_by = here;
        alive = h1.alive;
      } in
      let (d, found, at_p) = find-changed p (set_state disconnected) x.id m.entries _ o.entry in
      let apart1 = Apart-modify p (set_state disconnected) m.entries o.apart in
      let n : Manager = record m1 { entries = erase x.id m1.entries } in
      let removed : remove_session m1 x.id ≡ (true, n) = ground (arith, found) in
      let null : (p == 0) ≡ false = ground arith in
      (
        record s4 { manager = some n },
        rw
            (
              null,
              session_at_lem h,
              live,
              change_session_lem (set_state disconnected) h,
              called,
              session_at_lem h2,
              close_lem fd s3,
              session_at_lem h4,
              here,
            )
            (ap (λ (r : Bool × Manager). ok (tt, record s4 { manager = some r.1 })) removed),
        record {
          n = n;
          managed_by = refl;
          alive = λ q. ground (
            arith,
            deref-erase x.id q m1.entries d apart1 found,
            deref-modify p q (set_state disconnected) m.entries x h.alive,
          );
          unmapped = lookup-forget fd s2.socket_map;
        },
      )
