-- ===== src/Epoll/Round.antt =====
-- KanchoNet/Network/EpollModel.cpp, one round of the loop of ProcessSend, by what `send` answers.
use kancho_net.Common.{
  ℕ, suc, ◌<◌, ◌≡◌, refl, min, true, false, List, ◌∷◌, ◌++◌, some, arith, ◌==◌, take, drop,
  replicate, length-replicate, take-take_append,
}
use kancho_net.Types.{default_buffer_size}
use kancho_net.Ring.{available_read}
use kancho_net.Ring
use kancho_net.Ring.Bounds
use kancho_net.Ring.Contents.{contents, length-contents}
use kancho_net.Ring.Read.{skipped, skip_lem, peek_lem}
use kancho_net.Session.{Session, set_sending}
use kancho_net.Manager.{Manager, Address}
use kancho_net.Net.{ok, and_then, Kernel, Sent, sent, nothing, would_block, delivers, for_input}
use kancho_net.Host.{call}
use kancho_net.Epoll.State.{Epoll, App}
use kancho_net.Epoll.Sockets.{process_disconnect, modify_socket}
use kancho_net.Epoll.Io.{send_loop}
use kancho_net.Host.Access.{Holds, changed, session_at_lem, change_session_lem}

-- What a round offers to `send`: the oldest bytes, as many as the array on the stack takes.
abbrev pub offer : Session → List ℕ
offer x = take (min default_buffer_size (available_read x.send_buffer)) (contents x.send_buffer)

-- The change to the session when `j` bytes have been taken.
abbrev pub take_sent : Session → ℕ → Session → Session
take_sent x j y = record y {
  send_buffer = skipped x.send_buffer (min j (available_read x.send_buffer));
}

-- The state when `j` bytes have been taken by the operating system, now in state `k`.
abbrev pub after_sent : {K : Type 0} → Address → Session → Manager → ℕ → K → Epoll K → Epoll K
after_sent p x m j k s =
    changed p (take_sent x j) m
      (record s { kernel_state = k; log = delivers x.socket (take j (offer x)) ∷ s.log })

module _ {K : Type 0} (kernel : Kernel K) (app : App K) where
  module _ {p : Address} {x : Session} {m : Manager} {s : Epoll K} (f : ℕ) (h : Holds p x m s)
      (v : Bounds.IsValid x.send_buffer) (some_left : 0 < available_read x.send_buffer) where
    -- The copy onto the stack, and what of it is offered.
    peek_round :
        let n = min default_buffer_size (available_read x.send_buffer) in
        Ring.peek x.send_buffer (some (replicate default_buffer_size 0)) default_buffer_size
        ≡ some (n, offer x ++ drop n (replicate default_buffer_size 0))
    peek_round =
        peek_lem (replicate default_buffer_size 0) default_buffer_size v
          (omega (arith, length-replicate {A = ℕ} default_buffer_size 0))

    offered :
        let n = min default_buffer_size (available_read x.send_buffer) in
        take n (offer x ++ drop n (replicate default_buffer_size 0)) ≡ offer x
    offered =
        let n = min default_buffer_size (available_read x.send_buffer) in
        take-take_append n (contents x.send_buffer) (drop n (replicate default_buffer_size 0))
          (omega (arith, length-contents x.send_buffer))

    left : (available_read x.send_buffer == 0) ≡ false
    left = ground arith

    pub round_sent :
        (j : ℕ) (k : K)
        → kernel.send s.kernel_state x.socket (offer x) ≡ (sent j, k)
        → send_loop kernel app (suc f) p s ≡ send_loop kernel app f p (after_sent p x m j k s)
    unfolding send_loop call
    round_sent j k e =
        let s1 : Epoll K = record s {
          kernel_state = k;
          log = delivers x.socket (take j (offer x)) ∷ s.log;
        } in
        let h1 : Holds p x m s1 = record { managed_by = h.managed_by; alive = h.alive } in
        rw
          (
            session_at_lem h,
            left,
            peek_round,
            offered,
            e,
            offered,
            (skip_lem j v).0,
            change_session_lem (take_sent x j) h1,
          )
          refl

    pub round_would_block :
        (k : K)
        → kernel.send s.kernel_state x.socket (offer x) ≡ (would_block, k)
        → send_loop kernel app (suc f) p s ≡ ok (tt, record s { kernel_state = k })
    unfolding send_loop call
    round_would_block k e = rw (session_at_lem h, left, peek_round, offered, e) refl

    pub round_nothing :
        (k : K)
        → kernel.send s.kernel_state x.socket (offer x) ≡ (nothing, k)
        → send_loop kernel app (suc f) p s
          ≡ process_disconnect kernel app p (record s { kernel_state = k })
    unfolding send_loop call
    round_nothing k e = rw (session_at_lem h, left, peek_round, offered, e) refl

    pub round_broken :
        (k : K)
        → kernel.send s.kernel_state x.socket (offer x) ≡ (Sent.broken, k)
        → send_loop kernel app (suc f) p s
          ≡ process_disconnect kernel app p (record s { kernel_state = k })
    unfolding send_loop call
    round_broken k e = rw (session_at_lem h, left, peek_round, offered, e) refl

  -- A round with nothing left clears the flag and stops asking for writability.
  pub round_drained :
      {p : Address} {x : Session} {m : Manager} {s : Epoll K} (f : ℕ)
      → Holds p x m s
      → available_read x.send_buffer ≡ 0
      → send_loop kernel app (suc f) p s
        ≡ and_then
            (modify_socket kernel app x.socket for_input (changed p (set_sending false) m s))
            (λ r. ok (tt, r.1))
  unfolding send_loop
  round_drained {x = x} f h e =
      let none_left : (available_read x.send_buffer == 0) ≡ true = ground arith in
      rw (session_at_lem h, none_left, change_session_lem (set_sending false) h) refl
