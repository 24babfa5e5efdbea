-- ===== src/Epoll/Stream.antt =====
-- KanchoNet/Network/EpollModel.cpp, the loop of ProcessSend and the bytes that reach the
-- operating system.
use kancho_net.Common.{
  ℕ, zero, suc, ◌≤◌, ◌<◌, ◌≡◌, refl, ap, sym, subst, ◌∙◌, min, ◌⊎◌, inl, inr, Bool, false, List, [],
  ◌∷◌, ◌++◌, arith, ◌==◌, ==_refl, if◌then◌else◌, length, take, drop, take-append-drop, take-take,
  append_assoc, length-take, length-drop, Bool-cases, Option-cases,
}
use kancho_net.Types.{Socket, default_buffer_size}
use kancho_net.Ring.{available_read}
use kancho_net.Ring.Bounds
use kancho_net.Ring.Bounds.{available_read-lt}
use kancho_net.Ring.Contents.{contents, length-contents}
use kancho_net.Ring.Read.{skipped, skipped-IsValid, contents-skipped}
use kancho_net.Session.{Session, set_sending}
use kancho_net.Manager.{Manager, Address}
use kancho_net.Net.{
  Outcome, ok, Kernel, Sent, sent, nothing, would_block, Action, delivers, starts_network,
  ends_network, opened, shut, closes, watches, rewatches, unwatches, union_data, for_input,
}
use kancho_net.Host.{call, lookup}
use kancho_net.Epoll.State.{Epoll, App}
use kancho_net.Epoll.Sockets.{process_disconnect, modify_socket}
use kancho_net.Epoll.Io.{send_loop}
use kancho_net.Host.Access.{Owns, Owns-Holds, changed, managed, changed-Owns}
use kancho_net.Epoll.Fed.{chunk, Feeds, fed_all, feeds, RefusesNext, offer-chunk}
use kancho_net.Epoll.Round.{
  offer, take_sent, after_sent, round_sent, round_would_block, round_nothing, round_broken,
  round_drained,
}

-- What has been handed to the operating system for a socket, oldest first.
unfoldable pub sent_bytes : Socket → List Action → List ℕ
sent_bytes fd [] = []
sent_bytes fd (delivers j b ∷ l) = sent_bytes fd l ++ (if j == fd then b else [])
sent_bytes fd (starts_network ∷ l) = sent_bytes fd l
sent_bytes fd (ends_network ∷ l) = sent_bytes fd l
sent_bytes fd (opened j ∷ l) = sent_bytes fd l
sent_bytes fd (shut j ∷ l) = sent_bytes fd l
sent_bytes fd (closes j ∷ l) = sent_bytes fd l
sent_bytes fd (watches j mask ∷ l) = sent_bytes fd l
sent_bytes fd (rewatches j mask ∷ l) = sent_bytes fd l
sent_bytes fd (unwatches j ∷ l) = sent_bytes fd l

-- `send` takes at least one byte, and no more than it is offered, when it takes any.
abbrev pub SendBound : {K : Type 0} → Kernel K → Type 0
SendBound {K} kernel =
    (k k' : K) (socket : Socket) (data_bytes : List ℕ) (n : ℕ)
    → kernel.send k socket data_bytes ≡ (sent n, k')
    → (1 ≤ n) × (n ≤ length data_bytes)

-- A round leaves less.
less :
    (x : Session) (j : ℕ)
    → Bounds.IsValid x.send_buffer
    → 1 ≤ j
    → 0 < available_read x.send_buffer
    → available_read (take_sent x j x).send_buffer < available_read x.send_buffer
less x j v some_sent left =
    let r = x.send_buffer in
    let q = min j (available_read r) in
    omega (
      arith,
      length-contents (skipped r q),
      ap length (contents-skipped q v (omega arith)),
      length-drop q (contents r),
      length-contents r,
    )

-- What a round sends and what it leaves are what was queued.
kept_round :
    (x : Session) (j : ℕ)
    → Bounds.IsValid x.send_buffer
    → j ≤ min default_buffer_size (available_read x.send_buffer)
    → (before : List ℕ)
    → (before ++ (if x.socket == x.socket then take j (offer x) else []))
        ++ contents (take_sent x j x).send_buffer
      ≡ before ++ contents x.send_buffer
kept_round x j v small before =
    let c = contents x.send_buffer in
    let one : min j (available_read x.send_buffer) ≡ j = omega arith in
    rw
      (
        ==_refl x.socket,
        one,
        contents-skipped j v (omega arith),
        take-take j (min default_buffer_size (available_read x.send_buffer)) c small,
        append_assoc before (take j c) (drop j c),
        take-append-drop j c,
      )
      refl

left_round :
    (x : Session) (j : ℕ)
    → Bounds.IsValid x.send_buffer
    → j ≤ available_read x.send_buffer
    → contents (take_sent x j x).send_buffer ≡ drop j (contents x.send_buffer)
left_round x j v small =
    let one : min j (available_read x.send_buffer) ≡ j = omega arith in
    rw (one, contents-skipped j v small) refl

module _ {K : Type 0} (kernel : Kernel K) (app : App K) where
  -- Changing what epoll watches touches neither a session nor what was sent.
  pub modify_socket_lem :
      (fd : Socket) (mask : ℕ) (s : Epoll K)
      → (b : Bool) × (t : Epoll K) × (modify_socket kernel app fd mask s ≡ ok (b, t))
        × (t.manager ≡ s.manager)
        × ((j : Socket) → sent_bytes j t.log ≡ sent_bytes j s.log)
  unfolding modify_socket call sent_bytes
  modify_socket_lem fd mask s = elim (Option-cases (lookup fd s.socket_map)) [
    | inl missing ↦ (false, s, ground arith, refl, λ j. refl)
    | inr (p, found) ↦
        let (b, k) = kernel.epoll_mod s.kernel_state fd mask (union_data p fd) in
        (
          b,
          record s { kernel_state = k; log = rewatches fd mask ∷ s.log },
          rw (found, modify_socket) refl,
          refl,
          λ j. refl,
        )
  ]

  -- How the loop of `ProcessSend` ends: at a state `t` that still holds the session, now `y`, with
  -- the bytes that were queued either handed over or still queued, in order. The loop has returned with
  -- nothing queued and the flag cleared, or because the socket takes no more for now; or the socket is
  -- refused and the loop goes on to disconnect. `last` is the system state after the bytes taken.
  pub record Sends (p : Address) (x : Session) (s : Epoll K) (r : Outcome (Unit {0} × Epoll K))
      : Type 0 where
    pub y : Session
    pub n : Manager
    pub t : Epoll K
    pub lives : Owns p y n t
    pub sound : Bounds.IsValid y.send_buffer
    pub kept :
        sent_bytes x.socket t.log ++ contents y.send_buffer
        ≡ sent_bytes x.socket s.log ++ contents x.send_buffer
    pub last : K
    pub fed :
        Feeds kernel x.socket s.kernel_state (contents x.send_buffer) last (contents y.send_buffer)
    pub same_socket : y.socket ≡ x.socket
    pub same_lock : y.locked ≡ x.locked
    pub same_state : y.state ≡ x.state
    pub ends :
        ((r ≡ ok (tt, t)) × (available_read y.send_buffer ≡ 0) × (y.is_sending ≡ false))
        ⊎ ((r ≡ ok (tt, t))
            × (0 < available_read y.send_buffer)
            × (y.is_sending ≡ x.is_sending)
            × (kernel.send last x.socket (chunk (contents y.send_buffer))
                ≡ (would_block, t.kernel_state)))
        ⊎ ((r ≡ process_disconnect kernel app p t)
            × RefusesNext kernel x.socket last (contents y.send_buffer) t.kernel_state)

  told :
      {k l : K} {a : Sent} (x : Session)
      → kernel.send k x.socket (offer x) ≡ (a, l)
      → kernel.send k x.socket (chunk (contents x.send_buffer)) ≡ (a, l)
  told {k} x e = sym (ap (kernel.send k x.socket) (offer-chunk x)) ∙ e

  drained :
      {p : Address} {x : Session} {m : Manager} {s : Epoll K} (f : ℕ)
      → Owns p x m s
      → Bounds.IsValid x.send_buffer
      → available_read x.send_buffer ≡ 0
      → Sends p x s (send_loop kernel app (suc f) p s)
  unfolding set_sending
  drained {p} {x} {m} {s} f h v e =
      let quiet = changed p (set_sending false) m s in
      let (b, t, done, same, bytes_same) = modify_socket_lem x.socket for_input quiet in
      record {
        y = set_sending false x;
        n = managed p (set_sending false) m;
        t = t;
        lives =
            let o = changed-Owns (set_sending false) h refl in
            record { managed_by = same; apart = o.apart; entry = o.entry };
        sound = v;
        kept = ap (λ l. l ++ contents x.send_buffer) (bytes_same x.socket);
        last = s.kernel_state;
        fed = fed_all;
        same_socket = refl;
        same_lock = refl;
        same_state = refl;
        ends = inl (rw (round_drained kernel app f (Owns-Holds h) e, done) refl, e, refl);
      }

  by_answer :
      {p : Address} {x : Session} {m : Manager} {s : Epoll K} (f : ℕ)
      → SendBound kernel
      → Owns p x m s
      → Bounds.IsValid x.send_buffer
      → 0 < available_read x.send_buffer
      → ((x' : Session) (m' : Manager) (s' : Epoll K)
          → Owns p x' m' s'
          → Bounds.IsValid x'.send_buffer
          → available_read x'.send_buffer < available_read x.send_buffer
          → Sends p x' s' (send_loop kernel app f p s'))
      → (a : Sent) (k : K) → kernel.send s.kernel_state x.socket (offer x) ≡ (a, k)
      → Sends p x s (send_loop kernel app (suc f) p s)
  unfolding sent_bytes
  by_answer {p} {x} {m} {s} f bound h v left ih (sent j) k e =
      let (some_sent, offered) = bound s.kernel_state k x.socket (offer x) j e in
      let c = contents x.send_buffer in
      let q = min j (available_read x.send_buffer) in
      let s' = after_sent p x m j k s in
      let small : j ≤ min default_buffer_size (available_read x.send_buffer) = omega (
        arith,
        length-take (min default_buffer_size (available_read x.send_buffer)) c,
        length-contents x.send_buffer,
      ) in
      let r =
        ih (take_sent x j x) (managed p (take_sent x j) m) s'
          (let o = changed-Owns (take_sent x j) h refl in
            record { managed_by = refl; apart = o.apart; entry = o.entry })
          (skipped-IsValid q v (omega arith)) (less x j v some_sent left) in
      record {
        y = r.y;
        n = r.n;
        t = r.t;
        lives = r.lives;
        sound = r.sound;
        kept = r.kept ∙ kept_round x j v small (sent_bytes x.socket s.log);
        last = r.last;
        fed = feeds (told x e) (
            subst (λ d. Feeds kernel x.socket k d r.last (contents r.y.send_buffer))
              (left_round x j v (omega arith)) r.fed);
        same_socket = r.same_socket;
        same_lock = r.same_lock;
        same_state = r.same_state;
        ends = rw (round_sent kernel app f (Owns-Holds h) v left j k e) r.ends;
      }
  by_answer {p} {x} {m} {s} f bound h v left ih nothing k e = record {
    y = x;
    n = m;
    t = record s { kernel_state = k };
    lives = record { managed_by = h.managed_by; apart = h.apart; entry = h.entry };
    sound = v;
    kept = refl;
    last = s.kernel_state;
    fed = fed_all;
    same_socket = refl;
    same_lock = refl;
    same_state = refl;
    ends = inr (inr (round_nothing kernel app f (Owns-Holds h) v left k e, inl (told x e)));
  }
  by_answer {p} {x} {m} {s} f bound h v left ih Sent.broken k e = record {
    y = x;
    n = m;
    t = record s { kernel_state = k };
    lives = record { managed_by = h.managed_by; apart = h.apart; entry = h.entry };
    sound = v;
    kept = refl;
    last = s.kernel_state;
    fed = fed_all;
    same_socket = refl;
    same_lock = refl;
    same_state = refl;
    ends = inr (inr (round_broken kernel app f (Owns-Holds h) v left k e, inr (told x e)));
  }
  by_answer {p} {x} {m} {s} f bound h v left ih would_block k e = record {
    y = x;
    n = m;
    t = record s { kernel_state = k };
    lives = record { managed_by = h.managed_by; apart = h.apart; entry = h.entry };
    sound = v;
    kept = refl;
    last = s.kernel_state;
    fed = fed_all;
    same_socket = refl;
    same_lock = refl;
    same_state = refl;
    ends =
        inr (inl (round_would_block kernel app f (Owns-Holds h) v left k e, left, refl, told x e));
  }

  -- With more rounds than bytes queued the loop ends, and no byte is lost, repeated or reordered.
  pub send_loop_lem :
      (fuel : ℕ) {p : Address} {x : Session} {m : Manager} {s : Epoll K}
      → SendBound kernel
      → Owns p x m s
      → Bounds.IsValid x.send_buffer
      → available_read x.send_buffer < fuel
      → Sends p x s (send_loop kernel app fuel p s)
  send_loop_lem zero bound h v l = absurd (omega arith)
  send_loop_lem (suc f) {p} {x} {m} {s} bound h v l =
      elim (Bool-cases (available_read x.send_buffer == 0)) [
        | inl none_left ↦ drained f h v (ground arith)
        | inr left ↦
            by_answer f bound h v (ground arith)
              (λ x' m' s' h' v' less. send_loop_lem f bound h' v' (omega arith))
              (kernel.send s.kernel_state x.socket (offer x)).0
              (kernel.send s.kernel_state x.socket (offer x)).1 refl
      ]
