-- ===== src/Engine/Sends.antt =====
-- KanchoNet/Core/NetworkEngine, the two Sends, over KanchoNet/Network/EpollModel.
use kancho_net.Common.{
  ℕ, ◌<◌, ◌≤◌, ◌≡◌, ◌≢◌, refl, ap, ap₂, ◌∙◌, true, false, List, ◌++◌, some, arith, ◌==◌, leb, min,
  take, length, length-take,
}
use kancho_net.Vector
use kancho_net.Packet.{Packet, array, of_data}
use kancho_net.Packet
use kancho_net.Packet.Contents.{contents_lem, of_data_lem}
use kancho_net.Ring.{available_write}
use kancho_net.Ring.Bounds
use kancho_net.Ring.Contents.{contents}
use kancho_net.Session.{Session}
use kancho_net.Manager.{Manager, Address}
use kancho_net.Net.{ok, Kernel}
use kancho_net.Epoll.State.{App}
use kancho_net.Host.Access.{Owns}
use kancho_net.Epoll.Enqueue.{send_lem}
use kancho_net.Engine.{Engine, send_data}
use kancho_net.Engine.OnEpoll.{Driven, callbacks, epoll_network}

module _ {K : Type 0} (kernel : Kernel K) (app : App K) (fuel : ℕ) where
  -- A running engine that is given bytes to send to a live session whose lock is free queues as many as
  -- fit behind what was queued, and answers whether those are all.
  pub send_data_lem :
      {p : Address} {x : Session} {m : Manager} (e : Engine (Driven K)) (data_bytes : List ℕ)
      (size : ℕ)
      → e.running ≡ true
      → Owns p x m e.model.1
      → p ≢ 0
      → x.locked ≡ false
      → Bounds.IsValid x.send_buffer
      → 0 < size
      → size ≤ length data_bytes
      → size ≤ Vector.max_size
      → (e' : Engine (Driven K)) × (y : Session) × (n : Manager) × (send_data
            (epoll_network kernel app fuel)
            p
            (some data_bytes)
            size
            e
          ≡ ok (leb size (available_write x.send_buffer), e'))
        × (e'.running ≡ true)
        × Owns p y n e'.model.1
        × (contents y.send_buffer
            ≡ contents x.send_buffer
              ++ take (min size (available_write x.send_buffer)) (take size data_bytes))
  unfolding send_data epoll_network Packet.is_empty
  send_data_lem {p} {x} {m} e data_bytes size on o ne free v some_size enough fits =
      let (b, made, bv, holds) = of_data_lem data_bytes size enough fits in
      let sized : b.size ≡ size = omega (
        arith,
        ap length (contents_lem b),
        ap length holds,
        length-take b.size b.vector.elems,
        length-take size data_bytes,
        bv.used,
      ) in
      let full : Packet.is_empty b ≡ false = ground arith in
      let null : (p == 0) ≡ false = ground arith in
      let none_to_send : (size == 0) ≡ false = ground arith in
      let q = send_lem kernel (callbacks kernel app fuel e.model.0) o ne free v bv full in
      (
        record e { model = (e.model.0, q.t) },
        q.y,
        q.n,
        rw (on, null, none_to_send, made, q.returns, sized) refl,
        on,
        q.lives,
        q.queued
            ∙ ap₂ (λ k l. contents x.send_buffer ++ take (min k (available_write x.send_buffer)) l)
                sized holds,
      )
