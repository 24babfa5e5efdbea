-- ===== src/Chat/Leave.antt =====
-- Examples/ChatServer/ChatServer.h: what OnDisconnect does.
use kancho_net.Common.{
  ℕ, refl, Bool-cases, inl, inr, ◌≡◌, ◌≢◌, false, some, arith, ◌==◌, if◌then◌else◌,
}
use kancho_net.Session.{Session}
use kancho_net.Manager.{Manager, Address}
use kancho_net.Net.{ok}
use kancho_net.Host.{forget}
use kancho_net.Host.Access.{Holds, session_at_lem, change_session_lem, changed}
use kancho_net.Chat.Server.{
  ChatUser, World, find_user, free_user, user_at, is_nil, delete_user, erase_user, set_user_data,
  on_disconnect,
}

abbrev pub without_user : Session → Session
without_user y = record y { user_data = 0 }

module _ {H K : Type 0} where
  -- The user of a connection that ends is deleted, the session has none any more, and the map loses the
  -- session's id unless the name is empty.
  pub on_disconnect_lem :
      {x : Session} {m : Manager} {u : ChatUser} (p : Address) (a : ℕ) (w : World H K)
      → Holds p x m w.host
      → x.user_data ≡ a
      → a ≢ 0
      → find_user a w.heap ≡ some u
      → on_disconnect p w
        ≡ ok (
          tt,
          record {
            users = if is_nil u.username then w.users else forget x.id w.users;
            heap = free_user a w.heap;
            host = changed p without_user m w.host;
          },
        )
  unfolding on_disconnect user_at delete_user erase_user set_user_data
  on_disconnect_lem {x} {m} {u} p a w h has ne f =
      let live : (a == 0) ≡ false = ground arith in
      rw (session_at_lem h, has, live, f)
        (elim (Bool-cases (is_nil u.username)) [
          | inl nameless ↦ rw (nameless, change_session_lem without_user h) refl
          | inr named ↦ rw (named, change_session_lem without_user h) refl
        ])
