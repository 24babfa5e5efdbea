-- ===== src/Echo/Queued.antt =====
-- Examples/EchoServer/EchoServer.h over KanchoNet/Network/EpollModel.
use kancho_net.Common.{ℕ, ◌<◌, ◌≤◌, ◌≡◌, ◌≢◌, refl, true, false, List, ◌++◌, min, take, length}
use kancho_net.Vector
use kancho_net.Ring.{available_write}
use kancho_net.Ring.Bounds
use kancho_net.Ring.Contents.{contents}
use kancho_net.Session.{Session}
use kancho_net.Manager.{Manager, Address}
use kancho_net.Net.{Outcome, ok, and_then, Kernel}
use kancho_net.Host.{session_at}
use kancho_net.Host.Access.{Owns, Owns-Holds, session_at_lem}
use kancho_net.Epoll.State.{App}
use kancho_net.Engine.{Engine}
use kancho_net.Engine.OnEpoll.{Driven, epoll_network}
use kancho_net.Engine.Sends.{send_data_lem}
use kancho_net.Echo.{on_receive}

abbrev pub session_of : {K : Type 0} → Address → Driven K → Outcome Session
session_of p d = and_then (session_at p d.1) (λ r. ok r.0)

-- On a running engine over the epoll model, what comes from a live session whose lock is free is queued to
-- be sent back to it, as much as fits, behind what was queued; the rest is lost without a word.
pub echo_queues :
    {K : Type 0} (kernel : Kernel K) (app : App K) (fuel : ℕ) {p : Address} {x : Session}
    {m : Manager} (e : Engine (Driven K)) (data_bytes : List ℕ) (size : ℕ)
    → e.running ≡ true
    → Owns p x m e.model.1
    → p ≢ 0
    → x.locked ≡ false
    → Bounds.IsValid x.send_buffer
    → 0 < size
    → size ≤ length data_bytes
    → size ≤ Vector.max_size
    → (e' : Engine (Driven K)) × (y : Session) × (n : Manager) × (on_receive
          (epoll_network kernel app fuel)
          session_of
          p
          data_bytes
          size
          e
        ≡ ok (tt, e'))
      × (e'.running ≡ true)
      × Owns p y n e'.model.1
      × (contents y.send_buffer
          ≡ contents x.send_buffer
            ++ take (min size (available_write x.send_buffer)) (take size data_bytes))
unfolding on_receive
echo_queues kernel app fuel e data_bytes size on o ne free v some_size enough fits =
    let (e', y, n, returns, still, lives, queued) =
      send_data_lem kernel app fuel e data_bytes size on o ne free v some_size enough fits in
    (e', y, n, rw (session_at_lem (Owns-Holds o), returns) refl, still, lives, queued)
