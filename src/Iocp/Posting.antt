-- ===== src/Iocp/Posting.antt =====
-- KanchoNet/Network/IOCPModel.cpp, PostSend: what it hands to the system.
use kancho_net.Common.{
  ◌≡◌, ◌≢◌, refl, sym, ◌∙◌, ◌⊎◌, inl, inr, ℕ, ◌≤◌, Bool, true, false, List, [], ◌∷◌, ◌++◌, arith,
  ◌==◌, if◌then◌else◌, Bool-cases, min, take, drop, length, length-replicate, take-append_left,
  take-take, length-take, drop_all,
}
use kancho_net.Types.{default_buffer_size}
use kancho_net.Types
use kancho_net.Ring.{available_read}
use kancho_net.Ring.Bounds
use kancho_net.Ring.Contents.{contents, length-contents}
use kancho_net.Ring.Read.{peek_lem}
use kancho_net.Session.{Session, set_sending}
use kancho_net.Manager.{Manager, Address}
use kancho_net.Net.{Outcome, ok, Kernel}
use kancho_net.Host.{call}
use kancho_net.Host.Access.{
  Owns, Owns-Holds, Holds, changed, managed, changed-Owns, session_at_lem, change_session_lem,
}
use kancho_net.Windows.{Windows}
use kancho_net.Iocp.State.{Iocp, Context, fresh}
use kancho_net.Iocp.Post.{post_send}
use kancho_net.Iocp.Contexts.{topped, allocate_lem, context_top, set_top, deallocate_top}

length-fresh_buffer : length fresh.buffer ≡ default_buffer_size
unfolding fresh
length-fresh_buffer = length-replicate default_buffer_size 0

-- What a send of a session offers: the oldest bytes of its queue, a buffer full at most.
abbrev pub offer : Session → List ℕ
offer x = take (min default_buffer_size (available_read x.send_buffer)) (contents x.send_buffer)

-- `PostSend` has returned. A context more is left if a send is under way, and none otherwise.
pub record Posted {K : Type 0} (windows : Windows K) (p : Address) (x : Session) (c : Address)
    (k : K) (s : Iocp K) (r : Outcome (Bool × Iocp K)) : Type 0 where
  pub answer : Bool
  pub flag : Bool
  pub n : Manager
  pub t : Iocp K
  pub returns : r ≡ ok (answer, t)
  pub lives : Owns p (set_sending flag x) n t
  pub same_log : t.log ≡ s.log
  pub ends :
      ((contents x.send_buffer ≡ [])
        × (answer ≡ true)
        × (flag ≡ false)
        × (t.handle.contexts ≡ s.handle.contexts)
        × (t.kernel_state ≡ k))
      ⊎ ((answer ≡ flag)
          × ((answer, t.kernel_state) ≡ windows.wsa_send x.socket (offer x) c k)
          × (context : Context) × (t.handle.contexts
              ≡ (if answer then (c, context) ∷ s.handle.contexts else s.handle.contexts))
          × (context.operation ≡ Types.IoOperation.send)
          × (context.session ≡ p))

module _ {K : Type 0} (kernel : Kernel K) (windows : Windows K) where
  -- The offer, once it has been copied into the context.
  handed :
      (x : Session) (l : List ℕ)
      → let n = min default_buffer_size (available_read x.send_buffer) in
        take n (take n (contents x.send_buffer) ++ drop n l) ≡ offer x
  handed x l =
      let n = min default_buffer_size (available_read x.send_buffer) in
      take-append_left n (take n (contents x.send_buffer)) (drop n l)
        (omega (arith, length-take n (contents x.send_buffer), length-contents x.send_buffer))
      ∙ take-take n n (contents x.send_buffer) (omega arith)

  nothing_left :
      (x : Session)
      → min default_buffer_size (available_read x.send_buffer) ≡ 0
      → contents x.send_buffer ≡ []
  nothing_left x e =
      drop_all 0 (contents x.send_buffer) (omega (arith, length-contents x.send_buffer))

  pub post_send_lem :
      {p : Address} {x : Session} {m : Manager} {s : Iocp K}
      → Owns p x m s
      → Bounds.IsValid x.send_buffer
      → let (c, k) = kernel.new_address s.kernel_state in
        c ≢ 0 → Posted windows p x c k s (post_send kernel windows p s)
  unfolding post_send set_sending call
  post_send_lem {p} {x} {m} {s} o v not_null =
      let (c, k) = kernel.new_address s.kernel_state in
      let o1 = changed-Owns (set_sending true) o refl in
      let o2 = changed-Owns (set_sending false) o1 refl in
      let m1 = managed p (set_sending true) m in
      let s1 = changed p (set_sending true) m s in
      let s2 : Iocp K = record s1 { kernel_state = k } in
      let h2 : Holds p (set_sending true x) m1 s2 = record {
        managed_by = refl;
        alive = (Owns-Holds o1).alive;
      } in
      let n = min default_buffer_size (available_read x.send_buffer) in
      let started : Context → Context =
        λ y. record y { operation = Types.IoOperation.send; session = p } in
      let c1 = started fresh in
      let out = take n (contents x.send_buffer) ++ drop n c1.buffer in
      let copied : Context → Context = λ y. record y { buffer = out } in
      let c2 = copied c1 in
      let room : default_buffer_size ≤ length c1.buffer = omega (arith, length-fresh_buffer) in
      let h3 : Holds p (set_sending true x) m1 (topped c c1 s2) = record {
        managed_by = refl;
        alive = h2.alive;
      } in
      let h4 : Holds p (set_sending true x) m1 (topped c c2 s2) = record {
        managed_by = refl;
        alive = h2.alive;
      } in
      let e1 = change_session_lem (set_sending true) (Owns-Holds o) in
      let e2 = allocate_lem kernel s1 in
      let e3 = set_top c fresh s2 started in
      let e4 = session_at_lem h3 in
      let e5 = context_top c c1 s2 in
      let e6 = peek_lem c1.buffer default_buffer_size v room in
      let e7 = set_top c c1 s2 copied in
      let sized : Context → Context = λ y. record y { wsa_length = n } in
      let c3 = sized c2 in
      let s5 : Iocp K = record s2 { kernel_state = (windows.wsa_send x.socket (offer x) c k).1 } in
      let h5 : Holds p (set_sending true x) m1 (topped c c3 s5) = record {
        managed_by = refl;
        alive = h2.alive;
      } in
      elim (Bool-cases (n == 0)) [
        | inl nothing ↦ record {
          answer = true;
          flag = false;
          n = managed p (set_sending false) m1;
          t = changed p (set_sending false) m1 s2;
          returns =
              rw
                (
                  e1,
                  e2,
                  e3,
                  e4,
                  e5,
                  e6,
                  e7,
                  nothing,
                  change_session_lem (set_sending false) h4,
                  deallocate_top c c2 (changed p (set_sending false) m1 s2) not_null,
                )
                refl;
          lives = record { managed_by = refl; apart = o2.apart; entry = o2.entry };
          same_log = refl;
          ends = inl (nothing_left x (ground arith), refl, refl, refl, refl);
        }
        | inr something ↦ elim (Bool-cases (windows.wsa_send x.socket (offer x) c k).0) [
          | inl under_way ↦ record {
            answer = true;
            flag = true;
            n = m1;
            t = topped c c3 s5;
            returns =
                rw
                  (
                    e1,
                    e2,
                    e3,
                    e4,
                    e5,
                    e6,
                    e7,
                    something,
                    set_top c c2 s2 sized,
                    context_top c c3 s2,
                    handed x c1.buffer,
                    under_way,
                  )
                  refl;
            lives = record { managed_by = refl; apart = o1.apart; entry = o1.entry };
            same_log = refl;
            ends = inr (refl, λ i. (sym under_way i, s5.kernel_state), c3, refl, refl, refl);
          }
          | inr refused ↦ record {
            answer = false;
            flag = false;
            n = managed p (set_sending false) m1;
            t = changed p (set_sending false) m1 s5;
            returns =
                rw
                  (
                    e1,
                    e2,
                    e3,
                    e4,
                    e5,
                    e6,
                    e7,
                    something,
                    set_top c c2 s2 sized,
                    context_top c c3 s2,
                    handed x c1.buffer,
                    refused,
                    change_session_lem (set_sending false) h5,
                    deallocate_top c c3 (changed p (set_sending false) m1 s5) not_null,
                  )
                  refl;
            lives = record { managed_by = refl; apart = o2.apart; entry = o2.entry };
            same_log = refl;
            ends = inr (refl, λ i. (sym refused i, s5.kernel_state), c3, refl, refl, refl);
          }
        ]
      ]
