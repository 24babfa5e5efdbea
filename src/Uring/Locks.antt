-- ===== src/Uring/Locks.antt =====
-- KanchoNet/Network/IOUringModel.cpp, SubmitSend under a lock that is held.
use kancho_net.Common.{◌≡◌, refl, true}
use kancho_net.Session.{Session, set_sending}
use kancho_net.Manager.{Manager, Address}
use kancho_net.Net.{hang, Kernel}
use kancho_net.Host.Access.{Holds, changed-Holds, lock_session_lem, change_session_lem}
use kancho_net.Uring.State.{Uring, App, Liburing}
use kancho_net.Uring.Submit.{submit_send}

module _ {K : Type 0} (kernel : Kernel K) (lib : Liburing K) (app : App K) where
  -- `SubmitSend` takes the lock itself: under a lock that is held it never returns.
  pub submit_send_locked :
      {p : Address} {x : Session} {m : Manager} {s : Uring K}
      → Holds p x m s
      → x.locked ≡ true
      → submit_send kernel lib app p s ≡ hang
  unfolding submit_send set_sending
  submit_send_locked {p} {x} {m} {s} h locked =
      let h' = changed-Holds (set_sending true) h in
      rw (change_session_lem (set_sending true) h, lock_session_lem h', locked) refl
