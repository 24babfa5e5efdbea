-- ===== src/Iocp/Sending.antt =====
-- KanchoNet/Network/IOCPModel.cpp, Send: what is queued, what is posted, and the lock.
use kancho_net.Common.{
  ◌+◌, ◌<◌, ◌≤◌, ◌≡◌, ◌≢◌, refl, ap, sym, ◌∙◌, ◌⊎◌, inl, inr, Bool, true, false, List, ◌∷◌, ◌++◌,
  arith, leb→le, ◌==◌, ltb, leb, if◌then◌else◌, take, length, Bool-cases, length-append,
  length-take,
}
use kancho_net.Packet.{Packet}
use kancho_net.Packet
use kancho_net.Packet.Contents
use kancho_net.Ring.{available_write}
use kancho_net.Ring.Bounds
use kancho_net.Ring.Contents.{contents}
use kancho_net.Session.{Session, set_sending}
use kancho_net.Manager.{Manager, Address}
use kancho_net.Net.{Outcome, ok, Kernel}
use kancho_net.Host.Queue.{Put, taken, put, queue_packet_lem}
use kancho_net.Host.Access.{
  Owns, Owns-Holds, changed, managed, changed-Owns, take_lock, drop_lock, unlock_session_lem,
  session_at_lem,
}
use kancho_net.Windows.{Windows}
use kancho_net.Iocp.State.{Iocp, Context, Port}
use kancho_net.Iocp.Post.{post_send, send}
use kancho_net.Iocp.Posting.{Posted, offer, post_send_lem}

-- No request was made.
abbrev pub Idle : {K : Type 0} → Iocp K → Iocp K → Type 0
Idle s t = (t.kernel_state ≡ s.kernel_state) × (t.handle ≡ s.handle)

-- `Send` has returned: the start of the packet stands behind what was queued, and the lock is free. A packet
-- that did not fit is refused; one behind a send that is under way waits; another starts a send of the
-- oldest bytes, and is refused if that send is.
pub record Sends {K : Type 0} (kernel : Kernel K) (windows : Windows K) (p : Address) (x : Session)
    (packet : Packet) (s : Iocp K) (r : Outcome (Bool × Iocp K)) : Type 0 where
  pub answer : Bool
  pub y : Session
  pub n : Manager
  pub t : Iocp K
  pub returns : r ≡ ok (answer, t)
  pub lives : Owns p y n t
  pub sound : Bounds.IsValid y.send_buffer
  pub queued :
      contents y.send_buffer
      ≡ contents x.send_buffer ++ take (taken x packet) (Contents.contents packet)
  pub unlocked : y.locked ≡ false
  pub same_log : t.log ≡ s.log
  pub ends :
      let (c, k) = kernel.new_address s.kernel_state in
      ((available_write x.send_buffer < packet.size)
        × (answer ≡ false)
        × (y.is_sending ≡ x.is_sending)
        × Idle s t)
      ⊎ ((packet.size ≤ available_write x.send_buffer)
          × (x.is_sending ≡ true)
          × (answer ≡ true)
          × (y.is_sending ≡ true)
          × Idle s t)
      ⊎ ((packet.size ≤ available_write x.send_buffer)
          × (x.is_sending ≡ false)
          × (y.is_sending ≡ answer)
          × ((answer, t.kernel_state) ≡ windows.wsa_send x.socket (offer y) c k)
          × (length t.handle.contexts ≡ length s.handle.contexts + (if answer then 1 else 0)))

pub counted :
    (b : Bool) (e : Address × Context) (l l' : List (Address × Context))
    → l ≡ l'
    → length (if b then e ∷ l else l) ≡ length l' + (if b then 1 else 0)
counted true e l l' same = omega (arith, ap length same)
counted false e l l' same = omega (arith, ap length same)

module _ {K : Type 0} (kernel : Kernel K) (windows : Windows K) where
  ends_of :
      {p : Address} {x : Session} {m : Manager} {s : Iocp K} {packet : Packet}
      → Contents.IsValid packet
      → Packet.is_empty packet ≡ false
      → leb packet.size (available_write x.send_buffer) ≡ true
      → x.is_sending ≡ false
      → (q : Put p x m packet s)
      → let (c, k) = kernel.new_address q.t.kernel_state in
        (d : Posted windows p (put q.buffer (take_lock x)) c k q.t (post_send kernel windows p q.t))
        → (packet.size ≤ available_write x.send_buffer)
          × (x.is_sending ≡ false)
          × (d.flag ≡ d.answer)
          × ((d.answer, d.t.kernel_state)
              ≡ windows.wsa_send x.socket
                  (offer (put q.buffer x))
                  (kernel.new_address s.kernel_state).0
                  (kernel.new_address s.kernel_state).1)
          × (length d.t.handle.contexts ≡ length s.handle.contexts + (if d.answer then 1 else 0))
  unfolding Contents.contents Packet.is_empty
  ends_of {x = x} {packet = packet} pv full fits quiet q d =
      let nonempty : 0 < packet.size = ground arith in
      elim d.ends [
        | inl (none_left, t1, t2, t3, t4) ↦ absurd (
            omega (
              arith,
              nonempty,
              leb→le _ _ fits,
              pv.used,
              ap length (sym none_left ∙ q.queued),
              length-append (contents x.send_buffer)
                  (take (taken x packet) (Contents.contents packet)),
              length-take (taken x packet) (Contents.contents packet),
              length-take packet.size packet.vector.elems,
            ))
        | inr (same, asked, context, now, op, whose) ↦ (
          leb→le _ _ fits,
          quiet,
          sym same,
          rw (← q.same_kernel) asked,
          rw now (counted d.answer _ _ _ (ap (λ (h : Port). h.contexts) q.same_handle)),
        )
      ]

  starts :
      {p : Address} {x : Session} {m : Manager} {s : Iocp K} {packet : Packet}
      → p ≢ 0
      → Contents.IsValid packet
      → Packet.is_empty packet ≡ false
      → leb packet.size (available_write x.send_buffer) ≡ true
      → x.is_sending ≡ false
      → (q : Put p x m packet s)
      → let (c, k) = kernel.new_address q.t.kernel_state in
        Posted windows p (put q.buffer (take_lock x)) c k q.t (post_send kernel windows p q.t)
        → Sends kernel windows p x packet s (send kernel windows p packet s)
  unfolding send set_sending
  starts {p} {x} {packet = packet} ne pv full fits quiet q d =
      let null : (p == 0) ≡ false = ground arith in
      let whole : ltb (taken x packet) packet.size ≡ false = ground arith in
      let here = session_at_lem (Owns-Holds q.lives) in
      let last = unlock_session_lem (Owns-Holds d.lives) in
      record {
        answer = d.answer;
        y = drop_lock (set_sending d.flag (put q.buffer (take_lock x)));
        n = managed p drop_lock d.n;
        t = changed p drop_lock d.n d.t;
        returns = rw (null, full, q.returns, whole, here, quiet, d.returns, last) refl;
        lives = changed-Owns drop_lock d.lives refl;
        sound = q.sound;
        queued = q.queued;
        unlocked = refl;
        same_log = d.same_log ∙ q.same_log;
        ends = inr (inr (ends_of pv full fits quiet q d));
      }

  -- `Send` of a packet that is not empty, to a session whose lock is free, returns on every branch.
  pub send_or_post :
      {p : Address} {x : Session} {m : Manager} {s : Iocp K} {packet : Packet}
      → Owns p x m s
      → p ≢ 0
      → x.locked ≡ false
      → Bounds.IsValid x.send_buffer
      → Contents.IsValid packet
      → Packet.is_empty packet ≡ false
      → (kernel.new_address s.kernel_state).0 ≢ 0
      → Sends kernel windows p x packet s (send kernel windows p packet s)
  unfolding send set_sending
  send_or_post {p} {x} {m} {s} {packet} o ne free v pv full not_null =
      let null : (p == 0) ≡ false = ground arith in
      let q = queue_packet_lem o free v pv in
      let here = session_at_lem (Owns-Holds q.lives) in
      let freed = changed-Owns drop_lock q.lives refl in
      let release = unlock_session_lem (Owns-Holds q.lives) in
      elim (Bool-cases (leb packet.size (available_write x.send_buffer))) [
        | inr over ↦
            let short : ltb (taken x packet) packet.size ≡ true = ground arith in
            record {
              answer = false;
              y = drop_lock (put q.buffer (take_lock x));
              n = managed p drop_lock q.n;
              t = changed p drop_lock q.n q.t;
              returns = rw (null, full, q.returns, short, release) refl;
              lives = freed;
              sound = q.sound;
              queued = q.queued;
              unlocked = refl;
              same_log = q.same_log;
              ends = inl (ground arith, refl, refl, (q.same_kernel, q.same_handle));
            }
        | inl fits ↦
            let whole : ltb (taken x packet) packet.size ≡ false = ground arith in
            elim (Bool-cases x.is_sending) [
              | inl already ↦ record {
                answer = true;
                y = drop_lock (put q.buffer (take_lock x));
                n = managed p drop_lock q.n;
                t = changed p drop_lock q.n q.t;
                returns = rw (null, full, q.returns, whole, here, already, release) refl;
                lives = freed;
                sound = q.sound;
                queued = q.queued;
                unlocked = refl;
                same_log = q.same_log;
                ends =
                    inr
                      (inl (ground arith, already, refl, already, (q.same_kernel, q.same_handle)));
              }
              | inr quiet ↦
                  let d =
                    post_send_lem kernel windows q.lives q.sound (rw q.same_kernel not_null) in
                  starts ne pv full fits quiet q d
            ]
      ]
