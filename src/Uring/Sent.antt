-- ===== src/Uring/Sent.antt =====
-- KanchoNet/Network/IOUringModel.cpp, ProcessSendCompletion: what the completion of a send leaves.
use kancho_net.Common.{
  leb→le, if◌then◌else◌, ℕ, ◌<◌, ◌≤◌, ◌≡◌, ◌≢◌, refl, ap, ◌∙◌, ◌⊎◌, inl, inr, true, false, arith,
  ◌==◌, ltb, leb, min, Bool-cases, [], length, length-drop, drop_all, ◌-◌,
}
use kancho_net.Ring.{available_read}
use kancho_net.Ring.Bounds
use kancho_net.Ring.Contents.{contents, length-contents}
use kancho_net.Ring.Read.{skipped, skip_lem}
use kancho_net.Session.{Session, set_sending, is_disconnected}
use kancho_net.Manager.{Manager, Address}
use kancho_net.Net.{Outcome, ok, fault, hang, and_then, Kernel}
use kancho_net.Host.{◌>>◌, pure, change_session, unlock_session}
use kancho_net.Host.Queue.{put}
use kancho_net.Host.Access.{
  Owns, Owns-Holds, changed, managed, changed-Owns, take_lock, drop_lock, lock_session_lem,
  unlock_session_lem, session_at_lem, change_session_lem, change_session_gone,
}
use kancho_net.Uring.State.{Uring, App, Liburing, Context, Result, returned, errored}
use kancho_net.Uring.Sockets.{process_disconnect}
use kancho_net.Uring.Gone.{Gentle, process_disconnect_lem}
use kancho_net.Uring.Submit.{submit_send}
use kancho_net.Uring.Complete.{process_send_completion}
use kancho_net.Uring.Locks.{submit_send_locked}

-- How much a send has sent.
abbrev pub sent_of : Result → ℕ
sent_of errored = 0
sent_of (returned n) = n

module _ {K : Type 0} (kernel : Kernel K) (lib : Liburing K) (app : App K) where
  failed :
      {p : Address} {x : Session} {m : Manager} {s : Uring K}
      → Owns p x m s
      → Gentle app
      → p ≢ 0
      → is_disconnected x ≡ false
      → and_then
          ((change_session p (set_sending false) >> process_disconnect app p) s)
          (λ q. unlock_session p q.1)
        ≡ fault
  unfolding unlock_session is_disconnected set_sending
  failed {p} {x} {m} {s} o gentle ne live =
      let o' = changed-Owns (set_sending false) o refl in
      let (t, did, gone) = process_disconnect_lem app gentle o' ne live in
      rw (change_session_lem (set_sending false) (Owns-Holds o), did)
        (change_session_gone p gone.n t drop_lock gone.managed_by (ground (arith, gone.alive p)))

  -- A completed send has returned: what was sent is dropped, which was all, and the flag is cleared.
  pub record Finished (p : Address) (s : Uring K) (r : Outcome (Unit {0} × Uring K)) : Type 0 where
    pub y : Session
    pub n : Manager
    pub t : Uring K
    pub returns : r ≡ ok (tt, t)
    pub lives : Owns p y n t
    pub sound : Bounds.IsValid y.send_buffer
    pub emptied : contents y.send_buffer ≡ []
    pub quiet : y.is_sending ≡ false
    pub unlocked : y.locked ≡ false

  -- What was sent is dropped from the queue under the lock, and the rest decides what follows.
  after_skip :
      {x : Session} {m : Manager} {s : Uring K} (ctx : Context) (n : ℕ)
      → Owns ctx.session x m s
      → ctx.session ≢ 0
      → x.locked ≡ false
      → Bounds.IsValid x.send_buffer
      → 0 < n
      → let p = ctx.session in
        let r = skipped x.send_buffer (min n (available_read x.send_buffer)) in
        process_send_completion kernel lib app ctx (returned n) s
        ≡ and_then
            ((if ltb 0 (available_read r)
                then (do submit_send kernel lib app p; pure tt)
                else change_session p (set_sending false))
              (changed p (put r) (managed p take_lock m) s))
            (λ a. unlock_session p a.1)
  unfolding process_send_completion
  after_skip {x} {m} {s} ctx n o ne free v some_sent =
      let null : (ctx.session == 0) ≡ false = ground arith in
      let something : (n == 0) ≡ false = ground arith in
      let h1 = Owns-Holds (changed-Owns take_lock o refl) in
      let r = skipped x.send_buffer (min n (available_read x.send_buffer)) in
      rw
        (
          null,
          lock_session_lem (Owns-Holds o),
          free,
          something,
          session_at_lem h1,
          (skip_lem n v).0,
          change_session_lem (put r) h1,
        )
        refl

  left_after :
      (x : Session) (n : ℕ)
      → Bounds.IsValid x.send_buffer
      → available_read (skipped x.send_buffer (min n (available_read x.send_buffer)))
        ≡ available_read x.send_buffer - n
  left_after x n v =
      let q = min n (available_read x.send_buffer) in
      omega (
        arith,
        length-contents (skipped x.send_buffer q),
        ap length (skip_lem n v).2,
        length-drop q (contents x.send_buffer),
        length-contents x.send_buffer,
      )

  finished :
      {x : Session} {m : Manager} {s : Uring K} (ctx : Context) (n : ℕ)
      → Owns ctx.session x m s
      → ctx.session ≢ 0
      → x.locked ≡ false
      → Bounds.IsValid x.send_buffer
      → 0 < n
      → available_read x.send_buffer ≤ n
      → Finished ctx.session s (process_send_completion kernel lib app ctx (returned n) s)
  unfolding set_sending
  finished {x} {m} {s} ctx n o ne free v some_sent all =
      let p = ctx.session in
      let q = min n (available_read x.send_buffer) in
      let (did, rest_valid, rest) = skip_lem n v in
      let r = skipped x.send_buffer q in
      let none_left : ltb 0 (available_read r) ≡ false = ground (arith, left_after x n v) in
      let o2 = changed-Owns (put r) (changed-Owns take_lock o refl) refl in
      let o3 = changed-Owns (set_sending false) o2 refl in
      let o4 = changed-Owns drop_lock o3 refl in
      let m2 = managed p (put r) (managed p take_lock m) in
      record {
        y = drop_lock (set_sending false (put r (take_lock x)));
        n = managed p drop_lock (managed p (set_sending false) m2);
        t =
            changed p drop_lock (managed p (set_sending false) m2)
              (changed p (set_sending false) m2 s);
        returns =
            after_skip ctx n o ne free v some_sent
            ∙ rw
                (
                  none_left,
                  change_session_lem (set_sending false) (Owns-Holds o2),
                  unlock_session_lem (Owns-Holds o3),
                )
                refl;
        lives = record { managed_by = o4.managed_by; apart = o4.apart; entry = o4.entry };
        sound = rest_valid;
        emptied =
            rest
            ∙ drop_all q (contents x.send_buffer) (omega (arith, length-contents x.send_buffer));
        quiet = refl;
        unlocked = refl;
      }

  -- The completion of a send that sent all that is queued clears the queue and the flag. One that leaves
  -- bytes never returns, since it submits the next send under the lock that this takes again. One that failed
  -- destroys the session under its lock, whose release is undefined.
  pub process_send_completion_lem :
      {x : Session} {m : Manager} {s : Uring K} (ctx : Context) (result : Result)
      → Gentle app
      → Owns ctx.session x m s
      → ctx.session ≢ 0
      → x.locked ≡ false
      → is_disconnected x ≡ false
      → Bounds.IsValid x.send_buffer
      → let n = sent_of result in
        let r = process_send_completion kernel lib app ctx result s in
        ((n ≡ 0) × (r ≡ fault))
        ⊎ ((0 < n) × (n < available_read x.send_buffer) × (r ≡ hang))
        ⊎ ((0 < n) × (available_read x.send_buffer ≤ n) × Finished ctx.session s r)
  unfolding process_send_completion is_disconnected
  process_send_completion_lem {x} {m} {s} ctx errored gentle o ne free live v =
      let null : (ctx.session == 0) ≡ false = ground arith in
      inl (
        refl,
        rw (null, lock_session_lem (Owns-Holds o), free)
            (failed (changed-Owns take_lock o refl) gentle ne live),
      )
  process_send_completion_lem {x} {m} {s} ctx (returned n) gentle o ne free live v =
      let null : (ctx.session == 0) ≡ false = ground arith in
      elim (Bool-cases (n == 0)) [
        | inl nothing ↦ inl (
          ground arith,
          rw (null, lock_session_lem (Owns-Holds o), free, nothing)
              (failed (changed-Owns take_lock o refl) gentle ne live),
        )
        | inr something ↦ elim (Bool-cases (leb (available_read x.send_buffer) n)) [
          | inl all ↦
              let some_sent : 0 < n = ground arith in
              inr (
                inr (
                  some_sent,
                  leb→le _ _ all,
                  finished ctx n o ne free v some_sent (leb→le _ _ all),
                ))
          | inr part ↦
              let some_sent : 0 < n = ground arith in
              let r = skipped x.send_buffer (min n (available_read x.send_buffer)) in
              let some_left : ltb 0 (available_read r) ≡ true = ground (arith, left_after x n v) in
              let h2 = Owns-Holds (changed-Owns (put r) (changed-Owns take_lock o refl) refl) in
              inr (
                inl (
                  some_sent,
                  ground arith,
                  after_skip ctx n o ne free v some_sent
                      ∙ rw (some_left, submit_send_locked kernel lib app h2 refl) refl,
                ))
        ]
      ]
