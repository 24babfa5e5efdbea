-- ===== src/Host/Queue.antt =====
-- The start of Send in KanchoNet/Network/EpollModel.cpp, IOUringModel.cpp and IOCPModel.cpp: what of a packet is queued.
use kancho_net.Common.{ℕ, ◌≡◌, refl, ap, sym, ◌∙◌, false, ◌++◌, arith, min, take, take-take}
use kancho_net.Packet.{Packet}
use kancho_net.Packet.Contents
use kancho_net.Ring.{Ring, available_write}
use kancho_net.Ring.Bounds
use kancho_net.Ring.Contents.{contents}
use kancho_net.Ring.Write.{write_lem}
use kancho_net.Session.{Session}
use kancho_net.Manager.{Manager, Address}
use kancho_net.Net.{ok}
use kancho_net.Host.{Host, queue_packet}
use kancho_net.Host.Access.{
  Owns, Owns-Holds, changed, managed, changed-Owns, take_lock, lock_session_lem, session_at_lem,
  change_session_lem,
}

-- How many bytes of a packet the queue takes.
abbrev pub taken : Session → Packet → ℕ
taken x packet = min packet.size (available_write x.send_buffer)

-- The session under its lock, with another queue.
abbrev pub put : Ring → Session → Session
put buffer y = record y { send_buffer = buffer }

-- The start of the packet stands behind what was queued, and the lock is held.
pub record Put {H K : Type 0} (p : Address) (x : Session) (m : Manager) (packet : Packet)
    (s : Host H K) : Type 0 where
  pub buffer : Ring
  pub n : Manager
  pub t : Host H K
  pub returns : queue_packet p packet s ≡ ok (taken x packet, t)
  pub same_log : t.log ≡ s.log
  pub same_handle : t.handle ≡ s.handle
  pub same_kernel : t.kernel_state ≡ s.kernel_state
  pub lives : Owns p (put buffer (take_lock x)) n t
  pub sound : Bounds.IsValid buffer
  pub queued :
      contents buffer ≡ contents x.send_buffer ++ take (taken x packet) (Contents.contents packet)

pub queue_packet_lem :
    {H K : Type 0} {p : Address} {x : Session} {m : Manager} {s : Host H K} {packet : Packet}
    → Owns p x m s
    → x.locked ≡ false
    → Bounds.IsValid x.send_buffer
    → Contents.IsValid packet
    → Put p x m packet s
unfolding queue_packet Contents.contents
queue_packet_lem {p = p} {x} {m} {s} {packet} o free v pv =
    let (r, wrote, rv, now, cap) = write_lem packet.vector.elems packet.size v pv.used in
    let o1 = changed-Owns take_lock o refl in
    let same_take = take-take (taken x packet) packet.size packet.vector.elems (omega arith) in
    record {
      buffer = r;
      n = managed p (put r) (managed p take_lock m);
      t = changed p (put r) (managed p take_lock m) s;
      returns =
          rw
            (
              lock_session_lem (Owns-Holds o),
              free,
              session_at_lem (Owns-Holds o1),
              wrote,
              change_session_lem (put r) (Owns-Holds o1),
            )
            refl;
      same_log = refl;
      same_handle = refl;
      same_kernel = refl;
      lives = changed-Owns (put r) o1 refl;
      sound = rv;
      queued = now ∙ ap (λ l. contents x.send_buffer ++ l) (sym same_take);
    }
