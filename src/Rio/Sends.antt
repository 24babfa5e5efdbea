-- ===== src/Rio/Sends.antt =====
-- KanchoNet/Network/RIOModel.cpp, Send: what is queued.
use kancho_net.Common.{
  ◌≡◌, ◌≢◌, refl, inl, inr, Bool, true, false, ◌++◌, arith, ◌==◌, ltb, leb, take, Bool-cases,
}
use kancho_net.Packet.{Packet}
use kancho_net.Packet
use kancho_net.Packet.Contents
use kancho_net.Ring.{available_write}
use kancho_net.Ring.Bounds
use kancho_net.Ring.Contents.{contents}
use kancho_net.Session.{Session}
use kancho_net.Manager.{Manager, Address}
use kancho_net.Net.{Outcome, ok}
use kancho_net.Host.Queue.{Put, taken, put, queue_packet_lem}
use kancho_net.Host.Access.{
  Owns, Owns-Holds, changed, managed, changed-Owns, take_lock, drop_lock, unlock_session_lem,
  session_at_lem,
}
use kancho_net.Rio.State.{Rio}
use kancho_net.Rio.Post.{post_send, send}

-- `Send` has returned `answer`: the start of the packet stands behind what was queued, the lock is free, and
-- neither the system, nor the flag of a send under way, nor the rest of the model has changed.
pub record Kept {K : Type 0} (p : Address) (x : Session) (packet : Packet) (s : Rio K)
    (answer : Bool) (r : Outcome (Bool × Rio K)) : Type 0 where
  pub y : Session
  pub n : Manager
  pub t : Rio K
  pub returns : r ≡ ok (answer, t)
  pub lives : Owns p y n t
  pub sound : Bounds.IsValid y.send_buffer
  pub queued :
      contents y.send_buffer
      ≡ contents x.send_buffer ++ take (taken x packet) (Contents.contents packet)
  pub unlocked : y.locked ≡ false
  pub same_sending : y.is_sending ≡ x.is_sending
  pub same_log : t.log ≡ s.log
  pub same_handle : t.handle ≡ s.handle
  pub same_kernel : t.kernel_state ≡ s.kernel_state

module _ {K : Type 0} where
  kept :
      {p : Address} {x : Session} {m : Manager} {s : Rio K} {packet : Packet}
      {r : Outcome (Bool × Rio K)} (answer : Bool)
      → (q : Put p x m packet s) → r ≡ ok (answer, changed p drop_lock q.n q.t)
      → Kept p x packet s answer r
  kept {p = p} {x = x} answer q returns = record {
    y = drop_lock (put q.buffer (take_lock x));
    n = managed p drop_lock q.n;
    t = changed p drop_lock q.n q.t;
    returns = returns;
    lives = changed-Owns drop_lock q.lives refl;
    sound = q.sound;
    queued = q.queued;
    unlocked = refl;
    same_sending = refl;
    same_log = q.same_log;
    same_handle = q.same_handle;
    same_kernel = q.same_kernel;
  }

  -- `Send` of a packet that is not empty to a session whose lock is free returns true exactly when the packet
  -- fits, and only queues it.
  pub send_only_queues :
      {p : Address} {x : Session} {m : Manager} {s : Rio K} {packet : Packet}
      → Owns p x m s
      → p ≢ 0
      → x.locked ≡ false
      → Bounds.IsValid x.send_buffer
      → Contents.IsValid packet
      → Packet.is_empty packet ≡ false
      → Kept p x packet s (leb packet.size (available_write x.send_buffer)) (send p packet s)
  unfolding send post_send
  send_only_queues {p} {x} {m} {s} {packet} o ne free v pv full =
      let null : (p == 0) ≡ false = ground arith in
      let q = queue_packet_lem o free v pv in
      let here = session_at_lem (Owns-Holds q.lives) in
      let release = unlock_session_lem (Owns-Holds q.lives) in
      elim (Bool-cases (leb packet.size (available_write x.send_buffer))) [
        | inr over ↦
            let short : ltb (taken x packet) packet.size ≡ true = ground arith in
            rw over (kept false q (rw (null, full, q.returns, short, release) refl))
        | inl fits ↦
            let whole : ltb (taken x packet) packet.size ≡ false = ground arith in
            elim (Bool-cases x.is_sending) [
              | inl already ↦
                  rw fits
                    (kept true q (rw (null, full, q.returns, whole, here, already, release) refl))
              | inr quiet ↦
                  rw fits
                    (kept true q (rw (null, full, q.returns, whole, here, quiet, release) refl))
            ]
      ]
