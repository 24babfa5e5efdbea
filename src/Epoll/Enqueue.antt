-- ===== src/Epoll/Enqueue.antt =====
-- KanchoNet/Network/EpollModel.cpp, Send: what is queued, and what is answered.
use kancho_net.Common.{
  ◌≡◌, ◌≢◌, refl, ap, ◌∙◌, inl, inr, Bool, true, false, ◌++◌, arith, ◌==◌, if◌then◌else◌, leb, ltb,
  take, Bool-cases,
}
use kancho_net.Types.{Socket}
use kancho_net.Packet.{Packet}
use kancho_net.Packet
use kancho_net.Packet.Contents
use kancho_net.Ring.{available_write}
use kancho_net.Ring.Bounds
use kancho_net.Ring.Contents.{contents}
use kancho_net.Session.{Session, set_sending}
use kancho_net.Manager.{Manager, Address}
use kancho_net.Net.{Outcome, ok, and_then, for_both, Kernel}
use kancho_net.Host.{unlock_session}
use kancho_net.Epoll.State.{Epoll, App}
use kancho_net.Epoll.Io.{send}
use kancho_net.Host.Queue.{taken, put, queue_packet_lem}
use kancho_net.Host.Access.{
  Owns, Owns-Holds, changed, managed, changed-Owns, take_lock, drop_lock, unlock_session_lem,
  session_at_lem, change_session_lem,
}
use kancho_net.Epoll.Stream.{sent_bytes, modify_socket_lem}

-- `Send` has returned `answer`, with the lock free and the start of the packet queued behind what was
-- queued; nothing was handed to the operating system.
pub record Queued {K : Type 0} (p : Address) (x : Session) (packet : Packet) (s : Epoll K)
    (r : Outcome (Bool × Epoll K)) : Type 0 where
  pub y : Session
  pub n : Manager
  pub t : Epoll K
  pub returns : r ≡ ok (leb packet.size (available_write x.send_buffer), t)
  pub lives : Owns p y n t
  pub sound : Bounds.IsValid y.send_buffer
  pub queued :
      contents y.send_buffer
      ≡ contents x.send_buffer ++ take (taken x packet) (Contents.contents packet)
  pub unlocked : y.locked ≡ false
  pub same_state : y.state ≡ x.state
  pub same_socket : y.socket ≡ x.socket
  pub same_bytes : (fd : Socket) → sent_bytes fd t.log ≡ sent_bytes fd s.log
  pub sending :
      y.is_sending
      ≡ (if leb packet.size (available_write x.send_buffer) then true else x.is_sending)

module _ {K : Type 0} (kernel : Kernel K) (app : App K) where
  after_unlock :
      {p : Address} {x y : Session} {n : Manager} {s u : Epoll K} {packet : Packet}
      {r : Outcome (Bool × Epoll K)}
      → Owns p y n u
      → r
        ≡ and_then
            (unlock_session p u)
            (λ a. ok (leb packet.size (available_write x.send_buffer), a.1))
      → Bounds.IsValid y.send_buffer
      → contents y.send_buffer
        ≡ contents x.send_buffer ++ take (taken x packet) (Contents.contents packet)
      → y.state ≡ x.state
      → y.socket ≡ x.socket
      → ((fd : Socket) → sent_bytes fd u.log ≡ sent_bytes fd s.log)
      → y.is_sending
        ≡ (if leb packet.size (available_write x.send_buffer) then true else x.is_sending)
      → Queued p x packet s r
  after_unlock {p} {y = y} {n = n} {u = u} o e v q state socket bytes sending =
      let o' = changed-Owns drop_lock o refl in
      record {
        y = drop_lock y;
        n = managed p drop_lock n;
        t = changed p drop_lock n u;
        returns = rw (e, unlock_session_lem (Owns-Holds o)) refl;
        lives = record { managed_by = o'.managed_by; apart = o'.apart; entry = o'.entry };
        sound = v;
        queued = q;
        unlocked = refl;
        same_state = state;
        same_socket = socket;
        same_bytes = bytes;
        sending = sending;
      }

  -- On a live session with the lock free, `Send` of a packet that is not empty queues as much of
  -- it as fits behind what was queued, and answers whether that is all of it; a packet that does
  -- not fit leaves its start in the queue. The lock is free again, and nothing is handed to the
  -- operating system.
  pub send_lem :
      {p : Address} {x : Session} {m : Manager} {s : Epoll K} {packet : Packet}
      → Owns p x m s
      → p ≢ 0
      → x.locked ≡ false
      → Bounds.IsValid x.send_buffer
      → Contents.IsValid packet
      → Packet.is_empty packet ≡ false
      → Queued p x packet s (send kernel app p packet s)
  unfolding send set_sending
  send_lem {p} {x} {m} {s} {packet} o ne free v pv full =
      let null : (p == 0) ≡ false = ground arith in
      let q = queue_packet_lem o free v pv in
      let same_bytes = λ (fd : Socket). ap (sent_bytes fd) q.same_log in
      elim (Bool-cases (leb packet.size (available_write x.send_buffer))) [
        | inr over ↦
            let short : ltb (taken x packet) packet.size ≡ true = ground arith in
            after_unlock q.lives (rw (null, full, q.returns, short, over) refl) q.sound q.queued
              refl refl same_bytes (rw over refl)
        | inl fits ↦
            let whole : ltb (taken x packet) packet.size ≡ false = ground arith in
            let here = session_at_lem (Owns-Holds q.lives) in
            elim (Bool-cases x.is_sending) [
              | inl already ↦
                  after_unlock q.lives (rw (null, full, q.returns, whole, here, already, fits) refl)
                    q.sound q.queued refl refl same_bytes (rw fits already)
              | inr quiet ↦
                  let o' = changed-Owns (set_sending true) q.lives refl in
                  let (b, t, rearmed, same, same_sent) =
                    modify_socket_lem kernel app x.socket for_both
                      (changed p (set_sending true) q.n q.t) in
                  let y : Session = set_sending true (put q.buffer (take_lock x)) in
                  let there : Owns p y (managed p (set_sending true) q.n) t = record {
                    managed_by = same;
                    apart = o'.apart;
                    entry = o'.entry;
                  } in
                  let armed = change_session_lem (set_sending true) (Owns-Holds q.lives) in
                  after_unlock there
                    (rw (null, full, q.returns, whole, here, quiet, armed, rearmed, fits) refl)
                    q.sound q.queued refl refl (λ fd. same_sent fd ∙ same_bytes fd) (rw fits refl)
            ]
      ]
