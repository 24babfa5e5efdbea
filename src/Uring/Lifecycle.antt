-- ===== src/Uring/Lifecycle.antt =====
-- KanchoNet/Network/IOUringModel.cpp: the contexts that SubmitAccept and StartListen leave.
use kancho_net.Common.{
  ◌+◌, ◌≡◌, ◌≢◌, refl, inl, inr, Bool, true, false, ◌∷◌, none, arith, ◌==◌, if◌then◌else◌, length,
  ==_refl, Bool-cases,
}
use kancho_net.Types.{Socket, invalid_socket}
use kancho_net.Types
use kancho_net.Manager.{Address}
use kancho_net.Net.{ok, Kernel}
use kancho_net.Host.{call}
use kancho_net.Uring.State.{
  Uring, App, Context, Liburing, accepts, allocate_context, deallocate_context, context_at,
  context_of, without,
}
use kancho_net.Uring.Submit.{submit_accept}
use kancho_net.Uring.Control.{start_listen}

-- `new` gives no null pointer.
abbrev pub NeverNull : {K : Type 0} → Kernel K → Type 0
NeverNull {K} kernel = (k : K) → (kernel.new_address k).0 ≢ 0

module _ {K : Type 0} (kernel : Kernel K) (lib : Liburing K) (app : App K) where
  -- `SubmitAccept` returns. It leaves one more context if it answers true, and the contexts as they were
  -- if it answers false; it changes nothing else of the model.
  pub submit_accept_lem :
      (s : Uring K)
      → NeverNull kernel
      → (b : Bool) × (k : K) × (c : Address) × (x : Context) × (submit_accept kernel lib app s
          ≡ ok (
            b,
            record s {
              kernel_state = k;
              handle = record s.handle {
                contexts = if b then (c, x) ∷ s.handle.contexts else s.handle.contexts;
              };
            },
          ))
  unfolding submit_accept call allocate_context deallocate_context context_at context_of without
  submit_accept_lem s never_null =
      let x : Context = record {
        operation = Types.IoOperation.accept;
        session = 0;
        buffer = none;
        buffer_size = 0;
      } in
      let k1 = (lib.get_sqe s.kernel_state).1 in
      let c = (kernel.new_address k1).0 in
      let k3 = lib.prepare (accepts s.listen_socket) c (kernel.new_address k1).1 in
      let not_null : (c == 0) ≡ false = ground (arith, never_null k1) in
      elim (Bool-cases (lib.get_sqe s.kernel_state).0) [
        | inr none_free ↦ (false, k1, 0, x, rw none_free refl)
        | inl got ↦ elim (Bool-cases (lib.submit k3).0) [
          | inl sent ↦ (true, (lib.submit k3).1, c, x, rw (got, sent) refl)
          | inr refused ↦ (
            false,
            (lib.submit k3).1,
            c,
            x,
            rw (got, refused, not_null, ==_refl c, ==_refl c) refl,
          )
        ]
      ]

  submitted :
      (s : Uring K)
      → NeverNull kernel
      → s.initialized ≡ true
      → s.running ≡ false
      → (kernel.listen s.kernel_state s.listen_socket s.config.backlog).0 ≡ true
      → (b : Bool) (k : K) (c : Address) (x : Context)
      → (submit_accept kernel lib app (record s {
        initialized = true;
        running = false;
        kernel_state = (kernel.listen s.kernel_state s.listen_socket s.config.backlog).1;
      })
          ≡ ok (
            b,
            record s {
              initialized = true;
              running = false;
              kernel_state = k;
              handle = record s.handle {
                contexts = if b then (c, x) ∷ s.handle.contexts else s.handle.contexts;
              };
            },
          ))
      → (b' : Bool) × (t : Uring K) × (start_listen kernel lib app s ≡ ok (b', t))
        × (t.running ≡ b')
        × (t.initialized ≡ true)
        × (t.manager ≡ s.manager)
        × (length t.handle.contexts ≡ length s.handle.contexts + (if b' then 1 else 0))
  unfolding start_listen call
  submitted s never_null up still heard true k c x did = (
    true,
    record s {
      initialized = true;
      running = true;
      kernel_state = k;
      handle = record s.handle { contexts = (c, x) ∷ s.handle.contexts };
    },
    rw (up, still, heard, did) refl,
    refl,
    refl,
    refl,
    omega arith,
  )
  submitted s never_null up still heard false k c x did = (
    false,
    record s { initialized = true; running = false; kernel_state = k },
    rw (up, still, heard, did) refl,
    refl,
    refl,
    refl,
    omega arith,
  )

  -- `StartListen` of a model that is up and not running returns and answers whether it runs
  -- afterwards. One more context is allocated if it does, and none if it does not; `new` is taken
  -- not to give the null pointer.
  pub start_listen_contexts :
      (s : Uring K)
      → NeverNull kernel
      → s.initialized ≡ true
      → s.running ≡ false
      → (b : Bool) × (t : Uring K) × (start_listen kernel lib app s ≡ ok (b, t))
        × (t.running ≡ b)
        × (t.initialized ≡ true)
        × (t.manager ≡ s.manager)
        × (length t.handle.contexts ≡ length s.handle.contexts + (if b then 1 else 0))
  unfolding start_listen call
  start_listen_contexts s never_null up still =
      let (heard, k) = kernel.listen s.kernel_state s.listen_socket s.config.backlog in
      let s1 : Uring K = record s { initialized = true; running = false; kernel_state = k } in
      let r = submit_accept_lem s1 never_null in
      elim (Bool-cases (kernel.listen s.kernel_state s.listen_socket s.config.backlog).0) [
        | inr deaf ↦ (false, s1, rw (up, still, deaf) refl, refl, refl, refl, omega arith)
        | inl good ↦ submitted s never_null up still good r.0 r.1 r.2 r.3 r.4
      ]
