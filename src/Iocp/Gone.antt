-- ===== src/Iocp/Gone.antt =====
-- KanchoNet/Network/IOCPModel.cpp, ProcessDisconnect: what is left of the session, and of its other requests.
use kancho_net.Common.{
  ℕ, ◌≡◌, ◌≢◌, refl, ap, Bool, true, false, ◌||◌, List, [], ◌∷◌, some, none, arith, ◌==◌,
  if◌then◌else◌, not, ◌∙◌, ==_refl,
}
use kancho_net.Types.{disconnected}
use kancho_net.Session.{Session, is_disconnected, set_state}
use kancho_net.Manager.{Manager, Address, deref, erase, remove_session, has_session}
use kancho_net.Manager.Live.{deref-erase, Apart-modify, deref-modify}
use kancho_net.Net.{ok, fault, Kernel}
use kancho_net.Host.{the_manager}
use kancho_net.Host.Gone.{find-changed}
use kancho_net.Host.Access.{
  Owns, Owns-Holds, Holds, changed, managed, changed-Holds, session_at_lem, session_at_gone,
  change_session_lem,
}
use kancho_net.Windows.{Windows}
use kancho_net.Iocp.State.{Iocp, App, Context, context_of, without, context_at, deallocate_context}
use kancho_net.Iocp.Post.{invoke, process_disconnect}
use kancho_net.Iocp.Complete.{dispatch, is_accept}

-- The callback for a disconnect returns, and leaves the model, whatever it does to the system.
abbrev pub Gentle : {K : Type 0} → App K → Type 0
Gentle {K} app =
    (p : Address) (s : Iocp K)
    → (k : K) × (invoke app app.on_disconnect p s ≡ ok (tt, record s { kernel_state = k }))

-- No pointer reaches the session, the others are as they were, and no socket has been closed.
pub record Dropped {K : Type 0} (p : Address) (m : Manager) (s t : Iocp K) : Type 0 where
  pub n : Manager
  pub managed_by : t.manager ≡ some n
  pub alive : (q : Address) → deref q n.entries ≡ (if p == q then none else deref q m.entries)
  pub same_log : t.log ≡ s.log
  pub same_handle : t.handle ≡ s.handle

module _ {K : Type 0} (app : App K) where
  pub process_disconnect_drops :
      {x : Session} {m : Manager} {s : Iocp K} (ctx : Context)
      → Gentle app
      → Owns ctx.session x m s
      → ctx.session ≢ 0
      → is_disconnected x ≡ false
      → (t : Iocp K) × (process_disconnect app ctx s ≡ ok (tt, t)) × Dropped ctx.session m s t
  unfolding process_disconnect the_manager remove_session has_session set_state
  process_disconnect_drops {x} {m} {s} ctx gentle o ne live =
      let p = ctx.session in
      let h = Owns-Holds o in
      let s1 = changed p (set_state disconnected) m s in
      let h1 = changed-Holds (set_state disconnected) h in
      let (k, called) = gentle p s1 in
      let m1 = managed p (set_state disconnected) m in
      let s2 : Iocp K = record s1 { kernel_state = k } in
      let h2 : Holds p (set_state disconnected x) m1 s2 = record {
        managed_by = refl;
        alive = h1.alive;
      } in
      let (d, found, at_p) = find-changed p (set_state disconnected) x.id m.entries _ o.entry in
      let apart1 = Apart-modify p (set_state disconnected) m.entries o.apart in
      let n : Manager = record m1 { entries = erase x.id m1.entries } in
      let removed : remove_session m1 x.id ≡ (true, n) = ground (arith, found) in
      let null : (p == 0) ≡ false = ground arith in
      (
        record s2 { manager = some n },
        rw
            (
              null,
              session_at_lem h,
              live,
              change_session_lem (set_state disconnected) h,
              called,
              session_at_lem h2,
            )
            (ap (λ (r : Bool × Manager). ok (tt, record s2 { manager = some r.1 })) removed),
        record {
          n = n;
          managed_by = refl;
          alive = λ q. ground (
            arith,
            deref-erase x.id q m1.entries d apart1 found,
            deref-modify p q (set_state disconnected) m.entries x h.alive,
          );
          same_log = refl;
          same_handle = refl;
        },
      )

context_of-without :
    (c d : Address) (l : List (Address × Context))
    → c ≢ d
    → context_of d (without c l) ≡ context_of d l
unfolding context_of without
context_of-without c d [] ne = refl
context_of-without c d ((a, x) ∷ l) ne = ground (arith, context_of-without c d l ne)

module _ {K : Type 0} (kernel : Kernel K) (windows : Windows K) (app : App K) where
  -- A completion that failed, or that moved nothing.
  abbrev pub Ended : Bool → ℕ → Type 0
  Ended succeeded count = (not succeeded || count == 0) ≡ true

  dispatch-Ended :
      {t : Iocp K} {ctx : Context} (s : Iocp K) (b : Bool) (n : ℕ) (c : Address) (l : List ℕ)
      → context_of c s.handle.contexts ≡ some ctx
      → is_accept ctx ≡ false
      → c ≢ 0
      → Ended b n
      → process_disconnect app ctx s ≡ ok (tt, t)
      → t.handle ≡ s.handle
      → dispatch kernel windows app b n c l s
        ≡ ok (tt, record t { handle = record s.handle { contexts = without c s.handle.contexts } })
  unfolding dispatch context_at deallocate_context
  dispatch-Ended s b n c l allocated no_accept real ended did same =
      let null : (c == 0) ≡ false = ground arith in
      rw (allocated, ended, no_accept, did, null, same, allocated) refl

  dispatch_dangling :
      {m : Manager} {ctx : Context} (s : Iocp K) (b : Bool) (n : ℕ) (c : Address) (l : List ℕ)
      → context_of c s.handle.contexts ≡ some ctx
      → is_accept ctx ≡ false
      → Ended b n
      → ctx.session ≢ 0
      → s.manager ≡ some m
      → deref ctx.session m.entries ≡ none
      → dispatch kernel windows app b n c l s ≡ fault
  unfolding dispatch context_at process_disconnect
  dispatch_dangling {m} {ctx} s b n c l allocated no_accept ended ne managed_by gone =
      let null : (ctx.session == 0) ≡ false = ground arith in
      rw (allocated, ended, no_accept, null, session_at_gone ctx.session m s managed_by gone) refl

  -- When a request of a session ends by a failure, or moves nothing, the session is destroyed and its socket
  -- is left open; when another request of that session ends so too, its context leads to the session that is
  -- no more. The disconnect callback is taken to leave the model.
  pub second_failure_faults :
      {x : Session} {m : Manager} {s : Iocp K} {first second : Context}
      → (c d : Address) (b b' : Bool) (n n' : ℕ) (l l' : List ℕ) → Gentle app
      → Owns first.session x m s
      → is_disconnected x ≡ false
      → first.session ≢ 0
      → second.session ≡ first.session
      → context_of c s.handle.contexts ≡ some first
      → context_of d s.handle.contexts ≡ some second
      → is_accept first ≡ false
      → is_accept second ≡ false
      → c ≢ 0
      → c ≢ d
      → Ended b n
      → Ended b' n'
      → (t : Iocp K) × (dispatch kernel windows app b n c l s ≡ ok (tt, t))
        × (t.log ≡ s.log)
        × (dispatch kernel windows app b' n' d l' t ≡ fault)
  second_failure_faults {x} {m} {s} {first} {second} c d b b' n n' l l' gentle o live ne both at_c
        at_d no_first no_second real apart ended ended' =
      let (t, did, g) =
        process_disconnect_drops app {x = x} {m = m} {s = s} first gentle o ne live in
      (
        record t { handle = record s.handle { contexts = without c s.handle.contexts } },
        dispatch-Ended s b n c l at_c no_first real ended did g.same_handle,
        g.same_log,
        dispatch_dangling {m = g.n}
            (record t { handle = record s.handle { contexts = without c s.handle.contexts } }) b' n'
            d l' (context_of-without c d s.handle.contexts apart ∙ at_d) no_second ended'
            (rw both ne) g.managed_by
            (rw both (g.alive first.session ∙ rw (==_refl first.session) refl)),
      )
