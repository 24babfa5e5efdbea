-- ===== src/Uring/Sending.antt =====
-- KanchoNet/Network/IOUringModel.cpp, Send: what is queued, and when it returns.
use kancho_net.Common.{
  ◌<◌, ◌≤◌, ◌≡◌, ◌≢◌, refl, ◌⊎◌, inl, inr, Bool, true, false, ◌++◌, arith, ◌==◌, ltb, leb, take,
  Bool-cases,
}
use kancho_net.Packet.{Packet}
use kancho_net.Packet
use kancho_net.Packet.Contents
use kancho_net.Ring.{available_write}
use kancho_net.Ring.Bounds
use kancho_net.Ring.Contents.{contents}
use kancho_net.Session.{Session}
use kancho_net.Manager.{Manager, Address}
use kancho_net.Net.{Outcome, ok, hang, and_then, Kernel}
use kancho_net.Host.{unlock_session}
use kancho_net.Host.Queue.{taken, queue_packet_lem}
use kancho_net.Host.Access.{
  Owns, Owns-Holds, changed, managed, changed-Owns, drop_lock, unlock_session_lem, session_at_lem,
}
use kancho_net.Uring.State.{Uring, App, Liburing}
use kancho_net.Uring.Submit.{send}
use kancho_net.Uring.Locks.{submit_send_locked}

module _ {K : Type 0} (kernel : Kernel K) (lib : Liburing K) (app : App K) where
  -- `Send` has returned `answer`: the start of the packet is queued behind what was queued, and the lock
  -- is free.
  pub record Queued (p : Address) (x : Session) (packet : Packet) (s : Uring K) (answer : Bool)
      (r : Outcome (Bool × Uring K)) : Type 0 where
    pub y : Session
    pub n : Manager
    pub t : Uring K
    pub returns : r ≡ ok (answer, t)
    pub lives : Owns p y n t
    pub sound : Bounds.IsValid y.send_buffer
    pub queued :
        contents y.send_buffer
        ≡ contents x.send_buffer ++ take (taken x packet) (Contents.contents packet)
    pub unlocked : y.locked ≡ false
    pub same_sending : y.is_sending ≡ x.is_sending

  after_unlock :
      {p : Address} {x y : Session} {n : Manager} {s u : Uring K} {packet : Packet} {answer : Bool}
      {r : Outcome (Bool × Uring K)}
      → Owns p y n u
      → r ≡ and_then (unlock_session p u) (λ a. ok (answer, a.1))
      → Bounds.IsValid y.send_buffer
      → contents y.send_buffer
        ≡ contents x.send_buffer ++ take (taken x packet) (Contents.contents packet)
      → y.is_sending ≡ x.is_sending
      → Queued p x packet s answer r
  after_unlock {p} {y = y} {n = n} {u = u} o e v q sending =
      let o' = changed-Owns drop_lock o refl in
      record {
        y = drop_lock y;
        n = managed p drop_lock n;
        t = changed p drop_lock n u;
        returns = rw (e, unlock_session_lem (Owns-Holds o)) refl;
        lives = record { managed_by = o'.managed_by; apart = o'.apart; entry = o'.entry };
        sound = v;
        queued = q;
        unlocked = refl;
        same_sending = sending;
      }

  -- With the lock free, `Send` of a packet that does not fit leaves its start in the queue and answers
  -- false, and one that fits is queued if a send is on its way. If none is, `Send` starts one while it holds
  -- the lock that this takes again, and never returns.
  pub send_or_hang :
      {p : Address} {x : Session} {m : Manager} {s : Uring K} {packet : Packet}
      → Owns p x m s
      → p ≢ 0
      → x.locked ≡ false
      → Bounds.IsValid x.send_buffer
      → Contents.IsValid packet
      → Packet.is_empty packet ≡ false
      → ((available_write x.send_buffer < packet.size)
          × Queued p x packet s false (send kernel lib app p packet s))
        ⊎ ((packet.size ≤ available_write x.send_buffer)
            × (x.is_sending ≡ true)
            × Queued p x packet s true (send kernel lib app p packet s))
        ⊎ ((packet.size ≤ available_write x.send_buffer)
            × (x.is_sending ≡ false)
            × (send kernel lib app p packet s ≡ hang))
  unfolding send
  send_or_hang {p} {x} {m} {s} {packet} o ne free v pv full =
      let null : (p == 0) ≡ false = ground arith in
      let q = queue_packet_lem o free v pv in
      let here = session_at_lem (Owns-Holds q.lives) in
      elim (Bool-cases (leb packet.size (available_write x.send_buffer))) [
        | inr over ↦
            let short : ltb (taken x packet) packet.size ≡ true = ground arith in
            inl (
              ground arith,
              after_unlock q.lives (rw (null, full, q.returns, short) refl) q.sound q.queued refl,
            )
        | inl fits ↦
            let whole : ltb (taken x packet) packet.size ≡ false = ground arith in
            elim (Bool-cases x.is_sending) [
              | inl already ↦ inr (
                  inl (
                    ground arith,
                    already,
                    after_unlock q.lives (rw (null, full, q.returns, whole, here, already) refl)
                        q.sound q.queued refl,
                  ))
              | inr quiet ↦
                  let stuck = submit_send_locked kernel lib app (Owns-Holds q.lives) refl in
                  inr (
                    inr (
                      ground arith,
                      quiet,
                      rw (null, full, q.returns, whole, here, quiet, stuck) refl,
                    ))
            ]
      ]
