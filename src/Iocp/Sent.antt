-- ===== src/Iocp/Sent.antt =====
-- KanchoNet/Network/IOCPModel.cpp, ProcessSend: what the completion of a send leaves.
use kancho_net.Common.{
  ℕ, ◌+◌, ◌<◌, ◌≤◌, ◌≡◌, ◌≢◌, refl, ap, sym, ◌∙◌, ◌⊎◌, inl, inr, true, false, arith, ◌==◌, ltb,
  if◌then◌else◌, min, ◌-◌, drop, drop_all, length, length-drop, Bool-cases,
}
use kancho_net.Ring.{available_read}
use kancho_net.Ring.Bounds
use kancho_net.Ring.Contents.{contents, length-contents}
use kancho_net.Ring.Read.{skipped, skip_lem}
use kancho_net.Session.{Session, set_sending}
use kancho_net.Manager.{Manager, Address}
use kancho_net.Net.{Outcome, ok, Kernel}
use kancho_net.Host.Queue.{put}
use kancho_net.Host.Access.{
  Owns, Owns-Holds, changed, managed, changed-Owns, take_lock, drop_lock, lock_session_lem,
  unlock_session_lem, session_at_lem, change_session_lem,
}
use kancho_net.Windows.{Windows}
use kancho_net.Iocp.State.{Iocp, Context, App}
use kancho_net.Iocp.Post.{post_send}
use kancho_net.Iocp.Complete.{process_send}
use kancho_net.Iocp.Posting.{Posted, offer, post_send_lem}
use kancho_net.Iocp.Sending.{Idle, counted}

-- `ProcessSend` has returned: the bytes that were sent are gone from the queue, and the lock is free. If none
-- are left no send is under way; otherwise the oldest of the rest have been asked to be sent.
pub record Continued {K : Type 0} (kernel : Kernel K) (windows : Windows K) (p : Address)
    (x : Session) (count : ℕ) (s : Iocp K) (r : Outcome (Unit {0} × Iocp K)) : Type 0 where
  pub y : Session
  pub n : Manager
  pub t : Iocp K
  pub returns : r ≡ ok (tt, t)
  pub lives : Owns p y n t
  pub sound : Bounds.IsValid y.send_buffer
  pub left : contents y.send_buffer ≡ drop count (contents x.send_buffer)
  pub unlocked : y.locked ≡ false
  pub ends :
      let (c, k) = kernel.new_address s.kernel_state in
      ((available_read x.send_buffer ≤ count) × (y.is_sending ≡ false) × Idle s t)
      ⊎ ((count < available_read x.send_buffer)
          × ((y.is_sending, t.kernel_state) ≡ windows.wsa_send x.socket (offer y) c k)
          × (length t.handle.contexts ≡ length s.handle.contexts + (if y.is_sending then 1 else 0)))

module _ {K : Type 0} (kernel : Kernel K) (windows : Windows K) (app : App K) where
  -- Skipping more than there is skips all.
  dropped :
      (x : Session) (count : ℕ)
      → drop (min count (available_read x.send_buffer)) (contents x.send_buffer)
        ≡ drop count (contents x.send_buffer)
  dropped x count = elim (Bool-cases (ltb count (available_read x.send_buffer))) [
    | inl part ↦
        let e : min count (available_read x.send_buffer) ≡ count = ground arith in
        ap (λ (n : ℕ). drop n (contents x.send_buffer)) e
    | inr all ↦
        drop_all (min count (available_read x.send_buffer)) (contents x.send_buffer)
          (ground (arith, length-contents x.send_buffer))
        ∙ sym (
            drop_all count (contents x.send_buffer) (ground (arith, length-contents x.send_buffer)))
  ]

  left_after :
      (x : Session) (count : ℕ)
      → Bounds.IsValid x.send_buffer
      → available_read (skipped x.send_buffer (min count (available_read x.send_buffer)))
        ≡ available_read x.send_buffer - count
  left_after x count v =
      let q = min count (available_read x.send_buffer) in
      ground (
        arith,
        length-contents (skipped x.send_buffer q),
        ap length (skip_lem count v).2,
        length-drop q (contents x.send_buffer),
        length-contents x.send_buffer,
      )

  goes_on :
      {p c : Address} {k : K} {s2 : Iocp K} (x : Session) (count : ℕ)
      → Bounds.IsValid x.send_buffer
      → let r = skipped x.send_buffer (min count (available_read x.send_buffer)) in
        ltb 0 (available_read r) ≡ true
        → (d : Posted windows p (put r (take_lock x)) c k s2 (post_send kernel windows p s2))
        → (count < available_read x.send_buffer)
          × ((d.flag, d.t.kernel_state) ≡ windows.wsa_send x.socket (offer (put r x)) c k)
          × (length d.t.handle.contexts ≡ length s2.handle.contexts + (if d.flag then 1 else 0))
  goes_on {c = c} {s2 = s2} x count v some_left d =
      let r = skipped x.send_buffer (min count (available_read x.send_buffer)) in
      elim d.ends [
        | inl (none_left, t1, t2, t3, t4) ↦
            absurd (ground (arith, length-contents r, ap length none_left))
        | inr (same, asked, context, now, op, whose) ↦ (
          ground (arith, left_after x count v),
          ap (λ b. (b, d.t.kernel_state)) (sym same) ∙ asked,
          rw (← same)
              (rw now (counted d.answer (c, context) s2.handle.contexts s2.handle.contexts refl)),
        )
      ]

  -- The completion of a send of a session whose lock is free returns. The bytes that were sent leave the
  -- queue; the rest, if there are any, start another send, and else the session sends no more.
  pub process_send_continues :
      {x : Session} {m : Manager} {s : Iocp K} (ctx : Context) (count : ℕ)
      → Owns ctx.session x m s
      → ctx.session ≢ 0
      → x.locked ≡ false
      → Bounds.IsValid x.send_buffer
      → (kernel.new_address s.kernel_state).0 ≢ 0
      → Continued kernel windows ctx.session x count s (process_send kernel windows app ctx count s)
  unfolding process_send set_sending
  process_send_continues {x} {m} {s} ctx count o ne free v not_null =
      let p = ctx.session in
      let null : (p == 0) ≡ false = ground arith in
      let q = min count (available_read x.send_buffer) in
      let (did, rest_valid, rest) = skip_lem count v in
      let r = skipped x.send_buffer q in
      let o1 = changed-Owns take_lock o refl in
      let o2 = changed-Owns (put r) o1 refl in
      let s2 = changed p (put r) (managed p take_lock m) s in
      let e1 = lock_session_lem (Owns-Holds o) in
      let e2 = session_at_lem (Owns-Holds o1) in
      let e3 = change_session_lem (put r) (Owns-Holds o1) in
      elim (Bool-cases (ltb 0 (available_read r))) [
        | inr none_left ↦
            let o3 = changed-Owns (set_sending false) o2 refl in
            let o4 = changed-Owns drop_lock o3 refl in
            record {
              y = drop_lock (set_sending false (put r (take_lock x)));
              n =
                  managed p drop_lock
                    (managed p (set_sending false) (managed p (put r) (managed p take_lock m)));
              t =
                  changed p drop_lock
                    (managed p (set_sending false) (managed p (put r) (managed p take_lock m))) s2;
              returns =
                  rw
                    (
                      null,
                      e1,
                      free,
                      e2,
                      did,
                      e3,
                      none_left,
                      change_session_lem (set_sending false) (Owns-Holds o2),
                      unlock_session_lem (Owns-Holds o3),
                    )
                    refl;
              lives = record { managed_by = refl; apart = o4.apart; entry = o4.entry };
              sound = rest_valid;
              left = rest ∙ dropped x count;
              unlocked = refl;
              ends = inl (ground (arith, left_after x count v), refl, (refl, refl));
            }
        | inl some_left ↦
            let d = post_send_lem kernel windows o2 rest_valid not_null in
            record {
              y = drop_lock (set_sending d.flag (put r (take_lock x)));
              n = managed p drop_lock d.n;
              t = changed p drop_lock d.n d.t;
              returns =
                  rw
                    (
                      null,
                      e1,
                      free,
                      e2,
                      did,
                      e3,
                      some_left,
                      d.returns,
                      unlock_session_lem (Owns-Holds d.lives),
                    )
                    refl;
              lives = changed-Owns drop_lock d.lives refl;
              sound = rest_valid;
              left = rest ∙ dropped x count;
              unlocked = refl;
              ends = inr (goes_on x count v some_left d);
            }
      ]
