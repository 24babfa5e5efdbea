-- ===== src/Epoll/Deliver.antt =====
-- KanchoNet/Network/EpollModel.cpp: a Send and the ProcessSend after it.
use kancho_net.Common.{
  ℕ, ◌+◌, ◌<◌, ◌≤◌, ◌≡◌, ◌≢◌, refl, ap, ◌∙◌, ◌⊎◌, true, false, ◌++◌, arith, leb, take, length,
  take_all, length-take, length-append,
}
use kancho_net.Packet.{Packet}
use kancho_net.Packet
use kancho_net.Packet.Contents
use kancho_net.Ring.{available_read, available_write}
use kancho_net.Ring.Bounds
use kancho_net.Ring.Contents.{contents, length-contents}
use kancho_net.Session.{Session, is_disconnected}
use kancho_net.Manager.{Manager, Address}
use kancho_net.Net.{ok, Kernel}
use kancho_net.Epoll.State.{Epoll, App}
use kancho_net.Epoll.Io.{send, process_send}
use kancho_net.Host.Access.{Owns}
use kancho_net.Host.Queue.{taken}
use kancho_net.Epoll.Stream.{sent_bytes, SendBound}
use kancho_net.Epoll.Gone.{Gentle}
use kancho_net.Epoll.Flush.{Flushed, Cut, process_send_lem}
use kancho_net.Epoll.Enqueue.{send_lem}

module _ {K : Type 0} (kernel : Kernel K) (app : App K) where
  -- All of a packet that fits is queued.
  all_queued :
      (x : Session) {packet : Packet}
      → Contents.IsValid packet
      → packet.size ≤ available_write x.send_buffer
      → take (taken x packet) (Contents.contents packet) ≡ Contents.contents packet
  unfolding Contents.contents
  all_queued x {packet} v fits =
      take_all (taken x packet) (take packet.size packet.vector.elems)
        (omega (arith, length-take packet.size packet.vector.elems))

  -- A packet that is not empty and fits is accepted by `Send` on a live session whose lock is
  -- free. The flush that follows, with more rounds than bytes are then queued, offers `send` what was
  -- queued before and then the packet, and hands over what it answers to have taken, in order and
  -- nothing lost. It returns when nothing is left, with the flag cleared, or when `send` answers that it
  -- would block, with the rest still queued and the flag set; or `send` refuses the socket, the
  -- session is destroyed under its lock, and the flush is undefined. `send` is taken to take at
  -- least one byte and no more than it is offered when it takes any, and the disconnect callback
  -- to leave the sessions.
  pub deliver_lem :
      {p : Address} {x : Session} {m : Manager} {s : Epoll K} {packet : Packet} (fuel : ℕ)
      → SendBound kernel
      → Gentle kernel app
      → Owns p x m s
      → p ≢ 0
      → x.locked ≡ false
      → is_disconnected x ≡ false
      → Bounds.IsValid x.send_buffer
      → Contents.IsValid packet
      → Packet.is_empty packet ≡ false
      → packet.size ≤ available_write x.send_buffer
      → available_read x.send_buffer + packet.size < fuel
      → (z : Session) × (t : Epoll K) × (send kernel app p packet s ≡ ok (true, t))
        × (contents z.send_buffer ≡ contents x.send_buffer ++ Contents.contents packet)
        × (z.socket ≡ x.socket)
        × (z.is_sending ≡ true)
        × (sent_bytes x.socket t.log ≡ sent_bytes x.socket s.log)
        × (Flushed kernel p z t (process_send kernel app fuel p t) ⊎ Cut kernel app fuel p z t)
  unfolding is_disconnected Contents.contents
  deliver_lem {p} {x} {m} {s} {packet} fuel bound gentle o ne free live v pv full fits room =
      let q = send_lem kernel app o ne free v pv full in
      let accepted : leb packet.size (available_write x.send_buffer) ≡ true = ground arith in
      let all = q.queued ∙ ap (λ l. contents x.send_buffer ++ l) (all_queued x pv fits) in
      let small : available_read q.y.send_buffer < fuel = omega (
        arith,
        length-contents q.y.send_buffer,
        ap length all,
        length-append (contents x.send_buffer) (Contents.contents packet),
        length-contents x.send_buffer,
        length-take packet.size packet.vector.elems,
      ) in
      let still : is_disconnected q.y ≡ false = ground (arith, q.same_state, live) in
      (
        q.y,
        q.t,
        q.returns ∙ rw accepted refl,
        all,
        q.same_socket,
        q.sending ∙ rw accepted refl,
        q.same_bytes x.socket,
        process_send_lem kernel app fuel bound gentle q.lives ne q.unlocked still q.sound small,
      )
