-- ===== src/Epoll/Flush.antt =====
-- KanchoNet/Network/EpollModel.cpp, ProcessSend as a whole, under the lock of the session.
use kancho_net.Common.{
  ℕ, ◌<◌, ◌≡◌, ◌≢◌, refl, ap, sym, ◌∙◌, ◌⊎◌, inl, inr, List, none, some, false, ◌++◌, arith, ◌==◌,
}
use kancho_net.Ring.{available_read}
use kancho_net.Ring.Bounds
use kancho_net.Ring.Contents.{contents}
use kancho_net.Session.{Session, is_disconnected}
use kancho_net.Manager.{Manager, Address, deref}
use kancho_net.Net.{Outcome, ok, fault, would_block, and_then, Kernel}
use kancho_net.Host.{◌>>◌, lookup, lock_session, unlock_session}
use kancho_net.Epoll.State.{Epoll, App}
use kancho_net.Epoll.Sockets.{process_disconnect}
use kancho_net.Epoll.Io.{send_loop, process_send}
use kancho_net.Host.Access.{
  Owns, Owns-Holds, changed, managed, changed-Owns, take_lock, drop_lock, lock_session_lem,
  unlock_session_lem, change_session_gone,
}
use kancho_net.Epoll.Fed.{chunk, Feeds, RefusesNext}
use kancho_net.Epoll.Stream.{sent_bytes, SendBound, Sends, send_loop_lem}
use kancho_net.Epoll.Gone.{Gentle, process_disconnect_lem}

-- `ProcessSend` has returned: the lock is free, and the bytes that were queued have been handed over or
-- are still queued, in order, each as `send` has answered. Nothing is left and the flag is cleared, or
-- `send` has answered to the next offer that it would block.
pub record Flushed {K : Type 0} (kernel : Kernel K) (p : Address) (x : Session) (s : Epoll K)
    (r : Outcome (Unit {0} × Epoll K)) : Type 0 where
  pub y : Session
  pub n : Manager
  pub t : Epoll K
  pub returns : r ≡ ok (tt, t)
  pub lives : Owns p y n t
  pub sound : Bounds.IsValid y.send_buffer
  pub kept :
      sent_bytes x.socket t.log ++ contents y.send_buffer
      ≡ sent_bytes x.socket s.log ++ contents x.send_buffer
  pub unlocked : y.locked ≡ false
  pub last : K
  pub fed :
      Feeds kernel x.socket s.kernel_state (contents x.send_buffer) last (contents y.send_buffer)
  pub ends :
      ((available_read y.send_buffer ≡ 0) × (y.is_sending ≡ false))
      ⊎ ((0 < available_read y.send_buffer)
          × (y.is_sending ≡ x.is_sending)
          × (kernel.send last x.socket (chunk (contents y.send_buffer))
              ≡ (would_block, t.kernel_state)))

-- `send` has taken some of the bytes and then refused the socket. The loop, which runs under the lock, has
-- returned in the state `t`, with the session destroyed and its socket forgotten, and the release of the
-- lock after it is undefined.
pub record Cut {K : Type 0} (kernel : Kernel K) (app : App K) (fuel : ℕ) (p : Address) (x : Session)
    (s : Epoll K) : Type 0 where
  pub last : K
  pub left : List ℕ
  pub fed : Feeds kernel x.socket s.kernel_state (contents x.send_buffer) last left
  pub after : K
  pub refused : RefusesNext kernel x.socket last left after
  pub t : Epoll K
  pub n : Manager
  pub loop_ends : (lock_session p >> send_loop kernel app fuel p) s ≡ ok (tt, t)
  pub managed_by : t.manager ≡ some n
  pub destroyed : deref p n.entries ≡ none
  pub forgotten : lookup x.socket t.socket_map ≡ none
  pub undefined : process_send kernel app fuel p s ≡ fault

module _ {K : Type 0} (kernel : Kernel K) (app : App K) where
  released :
      {p : Address} {y : Session} {n : Manager} {t : Epoll K}
      → Owns p y n t
      → Owns p (drop_lock y) (managed p drop_lock n) (changed p drop_lock n t)
  released o = changed-Owns drop_lock o refl

  flushed :
      {p : Address} {x : Session} (m : Manager) {s : Epoll K} {r : Outcome (Unit {0} × Epoll K)}
      → (l : Sends kernel app p (take_lock x) (changed p take_lock m s) r) → r ≡ ok (tt, l.t)
      → ((available_read l.y.send_buffer ≡ 0) × (l.y.is_sending ≡ false))
        ⊎ ((0 < available_read l.y.send_buffer)
            × (l.y.is_sending ≡ x.is_sending)
            × (kernel.send l.last x.socket (chunk (contents l.y.send_buffer))
                ≡ (would_block, l.t.kernel_state)))
      → Flushed kernel p x s (and_then r (λ a. unlock_session p a.1))
  flushed {p} m l e ends = record {
    y = drop_lock l.y;
    n = managed p drop_lock l.n;
    t = changed p drop_lock l.n l.t;
    returns = rw (e, unlock_session_lem (Owns-Holds l.lives)) refl;
    lives = released l.lives;
    sound = l.sound;
    kept = l.kept;
    unlocked = refl;
    last = l.last;
    fed = l.fed;
    ends = ends;
  }

  -- Once the loop has disconnected, the session is destroyed, and with it the lock that the guard is
  -- about to release.
  cut :
      {p : Address} {x : Session} {s : Epoll K} (m : Manager) (fuel : ℕ)
      → Gentle kernel app
      → p ≢ 0
      → (l : Sends kernel app p
          (take_lock x)
          (changed p take_lock m s)
          (send_loop kernel app fuel p (changed p take_lock m s)))
      → is_disconnected l.y ≡ false
      → send_loop kernel app fuel p (changed p take_lock m s) ≡ process_disconnect kernel app p l.t
      → RefusesNext kernel x.socket l.last (contents l.y.send_buffer) l.t.kernel_state
      → lock_session p s ≡ ok (tt, changed p take_lock m s)
      → process_send kernel app fuel p s
        ≡ and_then
            (send_loop kernel app fuel p (changed p take_lock m s))
            (λ a. unlock_session p a.1)
      → Cut kernel app fuel p x s
  unfolding unlock_session
  cut {p} m fuel gentle ne l live e refuses locks steps =
      let (t', ended, g) = process_disconnect_lem kernel app gentle l.lives ne live in
      let none_there : deref p g.n.entries ≡ none = ground (arith, g.alive p) in
      record {
        last = l.last;
        left = contents l.y.send_buffer;
        fed = l.fed;
        after = l.t.kernel_state;
        refused = refuses;
        t = t';
        n = g.n;
        loop_ends = rw (locks, e) ended;
        managed_by = g.managed_by;
        destroyed = none_there;
        forgotten = ap (λ fd. lookup fd t'.socket_map) (sym l.same_socket) ∙ g.unmapped;
        undefined =
            steps ∙ rw (e, ended) (change_session_gone p g.n t' drop_lock g.managed_by none_there);
      }

  -- A live session with the lock free is flushed by `ProcessSend`, given more rounds than bytes are
  -- queued: `send` is offered the oldest bytes again and again, as many are dropped as it answers to
  -- have taken, and none is lost or reordered. If nothing is left the flag is cleared and the call
  -- returns with the lock free. If `send` answers that it would block the call returns so, with the
  -- rest still queued. If it refuses the socket the loop destroys the session and forgets its socket
  -- while the guard holds the session's lock, and the release of that lock is undefined. `send` is
  -- taken to take at least one byte and no more than it is offered when it takes any, and the
  -- disconnect callback to leave the sessions.
  pub process_send_lem :
      {p : Address} {x : Session} {m : Manager} {s : Epoll K} (fuel : ℕ)
      → SendBound kernel
      → Gentle kernel app
      → Owns p x m s
      → p ≢ 0
      → x.locked ≡ false
      → is_disconnected x ≡ false
      → Bounds.IsValid x.send_buffer
      → available_read x.send_buffer < fuel
      → Flushed kernel p x s (process_send kernel app fuel p s) ⊎ Cut kernel app fuel p x s
  unfolding process_send is_disconnected
  process_send_lem {p} {x} {m} {s} fuel bound gentle o ne free live v room =
      let null : (p == 0) ≡ false = ground arith in
      let l = send_loop_lem kernel app fuel bound (changed-Owns take_lock o refl) v room in
      let locks : lock_session p s ≡ ok (tt, changed p take_lock m s) =
        rw (lock_session_lem (Owns-Holds o), free) refl in
      let steps : process_send kernel app fuel p s
          ≡ and_then (send_loop kernel app fuel p (changed p take_lock m s))
              (λ a. unlock_session p a.1) =
        rw (null, locks) refl in
      elim l.ends [
        | inl (e, none_left, quiet) ↦ inl (rw steps (flushed m l e (inl (none_left, quiet))))
        | inr (inl (e, left, same, blocks)) ↦
            inl (rw steps (flushed m l e (inr (left, same, blocks))))
        | inr (inr (e, refuses)) ↦
            inr (cut m fuel gentle ne l (ground (arith, l.same_state)) e refuses locks steps)
      ]
