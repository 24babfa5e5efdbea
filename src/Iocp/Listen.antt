-- ===== src/Iocp/Listen.antt =====
-- KanchoNet/Network/IOCPModel.cpp: what RegisterAccept and StartListen leave.
use kancho_net.Common.{
  ◌≡◌, ◌≢◌, refl, ap, sym, ◌∙◌, ◌⊎◌, inl, inr, Bool, true, false, List, ◌∷◌, arith, ◌==◌,
  Bool-cases, Option-cases,
}
use kancho_net.Types.{Socket}
use kancho_net.Types
use kancho_net.Manager.{Address}
use kancho_net.Net.{ok, Kernel, opened, closes}
use kancho_net.Net.Accounts.{opens, closings, Balanced}
use kancho_net.Host.{call}
use kancho_net.Windows.{Windows, invalid_socket, create_tcp_socket}
use kancho_net.Iocp.State.{Iocp, Context, fresh}
use kancho_net.Iocp.Post.{register_accept}
use kancho_net.Iocp.Complete.{is_accept}
use kancho_net.Iocp.Control.{start_listen}
use kancho_net.Iocp.Contexts.{topped, allocate_lem, set_top, deallocate_top, close_valid}
use kancho_net.Iocp.Lifecycle.{GivesSockets, IsUp}

-- `new` gives no null pointer.
abbrev pub NeverNull : {K : Type 0} → Kernel K → Type 0
NeverNull {K} kernel = (k : K) → (kernel.new_address k).0 ≢ 0

-- `RegisterAccept` has returned: an accept is under way, or nothing is left of it. Only the system, the log
-- and the contexts have changed.
pub record Registered {K : Type 0} (windows : Windows K) (c : Address) (b : Bool) (s t : Iocp K)
    : Type 0 where
  pub k : K
  pub l : List (Address × Context)
  pub only :
      t ≡ record s { kernel_state = k; log = t.log; handle = record s.handle { contexts = l } }
  pub ends :
      ((b ≡ true)
        × (x : Context) × (l ≡ (c, x) ∷ s.handle.contexts)
        × (is_accept x ≡ true)
        × (t.log ≡ opened x.accept_socket ∷ s.log)
        × (before : K) × (windows.accept_ex s.listen_socket x.accept_socket 0 c before ≡ (true, k)))
      ⊎ ((b ≡ false) × (l ≡ s.handle.contexts) × Balanced s.log t.log)

module _ {K : Type 0} (kernel : Kernel K) (windows : Windows K) where
  -- The socket for the connection to come.
  pub register_accept_lem :
      (s : Iocp K)
      → NeverNull kernel
      → GivesSockets kernel
      → s.handle.accept_ex_loaded ≡ true
      → (b : Bool) × (t : Iocp K) × (register_accept kernel windows s ≡ ok (b, t))
        × Registered windows (kernel.new_address s.kernel_state).0 b s t
  unfolding register_accept create_tcp_socket call opens closings
  register_accept_lem s never_null gives loaded =
      let (c, k1) = kernel.new_address s.kernel_state in
      let real = never_null s.kernel_state in
      let s1 : Iocp K = record s { kernel_state = k1 } in
      let accepting : Context → Context =
        λ x. record x { operation = Types.IoOperation.accept; session = 0 } in
      let x1 = accepting fresh in
      let k2 = (kernel.create_socket k1).1 in
      let put : Socket → Context → Context = λ fd x. record x { accept_socket = fd } in
      let e1 = allocate_lem kernel s in
      let e2 = set_top c fresh s1 accepting in
      elim (Option-cases (kernel.create_socket k1).0) [
        | inl no_socket ↦
            let s2 : Iocp K = record s { kernel_state = k2 } in
            (
              false,
              s2,
              rw
                  (
                    e1,
                    e2,
                    no_socket,
                    set_top c x1 s2 (put invalid_socket),
                    deallocate_top c (put invalid_socket x1) s2 real,
                  )
                  refl,
              record {
                k = k2;
                l = s.handle.contexts;
                only = refl;
                ends = inr (refl, refl, λ fd. omega arith);
              },
            )
        | inr (fd, got) ↦
            let valid = gives k1 fd got in
            let not_invalid : (fd == invalid_socket) ≡ false = ground arith in
            let s2 : Iocp K = record s { kernel_state = k2; log = opened fd ∷ s.log } in
            let x2 = put fd x1 in
            let e3 = set_top c x1 s2 (put fd) in
            let (posted, k3) = windows.accept_ex s.listen_socket fd 0 c k2 in
            let s3 : Iocp K = record s2 { kernel_state = k3 } in
            let s4 : Iocp K = record s3 { handle = record s.handle { accept_ex_loaded = true } } in
            elim (Bool-cases (windows.accept_ex s.listen_socket fd 0 c k2).0) [
              | inl pending ↦ (
                true,
                topped c x2 s3,
                rw (e1, e2, got, e3, not_invalid, loaded, pending) refl,
                record {
                  k = k3;
                  l = (c, x2) ∷ s.handle.contexts;
                  only = refl;
                  ends = inl (refl, x2, refl, refl, refl, k2, ap (λ a. (a, k3)) pending);
                },
              )
              | inr refused ↦ (
                false,
                record s3 { log = closes fd ∷ opened fd ∷ s.log },
                rw
                    (
                      e1,
                      e2,
                      got,
                      e3,
                      not_invalid,
                      loaded,
                      refused,
                      close_valid (topped c x2 s4) valid,
                      deallocate_top c x2 (record s4 { log = closes fd ∷ opened fd ∷ s.log }) real,
                    )
                    refl,
                record {
                  k = k3;
                  l = s.handle.contexts;
                  only = refl;
                  ends = inr (refl, refl, λ fd. ground arith);
                },
              )
            ]
      ]

  -- `StartListen` of a model that is up and not running returns and answers whether it runs afterwards. The
  -- sessions are as they were. If it runs, one accept more is under way; if not, whatever it opened it has closed. `new` is
  -- taken not to give the null pointer, nor `WSASocket` the invalid one.
  pub start_listen_registers :
      (s : Iocp K)
      → NeverNull kernel
      → GivesSockets kernel
      → IsUp s
      → s.running ≡ false
      → (b : Bool) × (t : Iocp K) × (start_listen kernel windows s ≡ ok (b, t))
        × (t.running ≡ b)
        × (t.manager ≡ s.manager)
        × IsUp t
        × (((b ≡ true)
              × (c : Address) × (x : Context) × (t.handle.contexts ≡ (c, x) ∷ s.handle.contexts)
              × (is_accept x ≡ true)
              × (c ≢ 0)
              × (before : K) × (windows.accept_ex s.listen_socket x.accept_socket 0 c before
                  ≡ (true, t.kernel_state)))
            ⊎ ((b ≡ false) × (t.handle.contexts ≡ s.handle.contexts) × Balanced s.log t.log))
  unfolding start_listen call
  start_listen_registers s never_null gives u still =
      let k1 = (kernel.listen s.kernel_state s.listen_socket s.config.backlog).1 in
      let k2 = (windows.associate s.listen_socket s.handle.handle 0 k1).1 in
      elim (Bool-cases (kernel.listen s.kernel_state s.listen_socket s.config.backlog).0) [
        | inr deaf ↦ (
          false,
          record s { kernel_state = k1; initialized = true; running = false },
          rw (u.up, still, deaf) refl,
          refl,
          refl,
          record {
            up = refl;
            port = u.port;
            has_port = u.has_port;
            loaded = u.loaded;
            listener = u.listener;
          },
          inr (refl, refl, λ fd. omega arith),
        )
        | inl heard ↦ elim (Bool-cases (windows.associate s.listen_socket s.handle.handle 0 k1).0) [
          | inr apart ↦ (
            false,
            record s { kernel_state = k2; initialized = true; running = false },
            rw (u.up, still, heard, apart) refl,
            refl,
            refl,
            record {
              up = refl;
              port = u.port;
              has_port = u.has_port;
              loaded = u.loaded;
              listener = u.listener;
            },
            inr (refl, refl, λ fd. omega arith),
          )
          | inl joined ↦
              let s2 : Iocp K = record s {
                kernel_state = k2;
                initialized = true;
                running = false;
              } in
              let (b, t, did, g) = register_accept_lem s2 never_null gives u.loaded in
              let still_up : IsUp t = record {
                up = ap (λ (r : Iocp K). r.initialized) g.only;
                port = u.port;
                has_port = ap (λ (r : Iocp K). r.handle.handle) g.only ∙ u.has_port;
                loaded = ap (λ (r : Iocp K). r.handle.accept_ex_loaded) g.only ∙ u.loaded;
                listener = rw (ap (λ (r : Iocp K). r.listen_socket) g.only) u.listener;
              } in
              let same_manager = ap (λ (r : Iocp K). r.manager) g.only in
              let now = ap (λ (r : Iocp K). r.handle.contexts) g.only in
              elim g.ends [
                | inl (good, x, l, accepting, log, before, posted) ↦ (
                  true,
                  record t { running = true },
                  rw (u.up, still, heard, joined, did, good) refl,
                  refl,
                  same_manager,
                  record {
                    up = still_up.up;
                    port = u.port;
                    has_port = still_up.has_port;
                    loaded = still_up.loaded;
                    listener = still_up.listener;
                  },
                  inl (
                    refl,
                    (kernel.new_address k2).0,
                    x,
                    now ∙ l,
                    accepting,
                    never_null k2,
                    before,
                    posted ∙ ap (λ (r : Iocp K). (true, r.kernel_state)) (sym g.only),
                  ),
                )
                | inr (bad, l, balanced) ↦ (
                  false,
                  t,
                  rw (u.up, still, heard, joined, did, bad) refl,
                  ap (λ (r : Iocp K). r.running) g.only,
                  same_manager,
                  still_up,
                  inr (refl, now ∙ l, balanced),
                )
              ]
        ]
      ]
