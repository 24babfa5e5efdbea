-- ===== src/Iocp/Lifecycle.antt =====
-- KanchoNet/Network/IOCPModel.cpp: what Initialize leaves.
use kancho_net.Common.{
  ◌≡◌, ◌≢◌, refl, sym, ◌∙◌, ap, Option, ◌⊎◌, inl, inr, Bool, true, false, ◌∷◌, none, some, arith,
  ◌==◌, Bool-cases, Option-cases,
}
use kancho_net.Types.{Socket}
use kancho_net.Config.{Config}
use kancho_net.Manager
use kancho_net.Net.{Outcome, ok, Kernel, opened, closes, starts_network, ends_network}
use kancho_net.Net.Accounts.{opens, closings, Balanced, startups, cleanups, Released}
use kancho_net.Host.{call}
use kancho_net.Windows.{
  Windows, Handle, invalid_socket, initialize_network, cleanup_network, close_handle,
  create_tcp_socket, accept_ex, connect_ex, disconnect_ex, get_accept_ex_sockaddrs,
}
use kancho_net.Iocp.State.{Iocp}
use kancho_net.Iocp.Contexts.{close_valid}
use kancho_net.Iocp.Control.{
  initialize, create_iocp, close_port, load_extension_functions, give_up, bring_up, open_listener,
}

-- `WSASocket` does not return `INVALID_SOCKET` when it succeeds.
abbrev pub GivesSockets : {K : Type 0} → Kernel K → Type 0
GivesSockets {K} kernel =
    (k : K) (fd : Socket) → (kernel.create_socket k).0 ≡ some fd → fd ≢ invalid_socket

-- What a model that is up has.
pub record IsUp {K : Type 0} (s : Iocp K) : Type 0 where
  pub up : s.initialized ≡ true
  pub port : Handle
  pub has_port : s.handle.handle ≡ some port
  pub loaded : s.handle.accept_ex_loaded ≡ true
  pub listener : s.listen_socket ≢ invalid_socket

module _ {K : Type 0} (kernel : Kernel K) (windows : Windows K) where
  -- The load ends whole, with `AcceptEx` at hand, or stops.
  load_lem :
      (socket : Socket) (s : Iocp K)
      → (b : Bool) × (k : K) × (a : Bool) × (load_extension_functions kernel windows socket s
          ≡ ok
              (b, record s { kernel_state = k; handle = record s.handle { accept_ex_loaded = a } }))
        × ((b ≡ false) ⊎ (a ≡ true))
  unfolding load_extension_functions call
  load_lem socket s =
      let k1 = (windows.load_function socket accept_ex s.kernel_state).1 in
      let k2 = (windows.load_function socket connect_ex k1).1 in
      let k3 = (windows.load_function socket disconnect_ex k2).1 in
      let (last, k4) = windows.load_function socket get_accept_ex_sockaddrs k3 in
      elim (Bool-cases (windows.load_function socket accept_ex s.kernel_state).0) [
        | inr failed ↦ (false, k1, s.handle.accept_ex_loaded, rw failed refl, inl refl)
        | inl one ↦ elim (Bool-cases (windows.load_function socket connect_ex k1).0) [
          | inr failed ↦ (false, k2, true, rw (one, failed) refl, inl refl)
          | inl two ↦ elim (Bool-cases (windows.load_function socket disconnect_ex k2).0) [
            | inr failed ↦ (false, k3, true, rw (one, two, failed) refl, inl refl)
            | inl three ↦ (
              (windows.load_function socket get_accept_ex_sockaddrs k3).0,
              k4,
              true,
              rw (one, two, three) refl,
              inr refl,
            )
          ]
        ]
      ]

  -- How `Initialize` ends.
  abbrev pub Ends : Config → Iocp K → Bool → Iocp K → Type 0
  Ends config s b t =
      ((b ≡ true)
        × (s.initialized ≡ false)
        × IsUp t
        × (t.running ≡ s.running)
        × (t.config ≡ config)
        × (t.manager ≡ some (Manager.create config.max_sessions)))
      ⊎ ((b ≡ false)
          × (t.initialized ≡ s.initialized)
          × (t.running ≡ s.running)
          × Balanced s.log t.log
          × Released s.log t.log)

  pub close_port_lem :
      {port : Handle} (s : Iocp K)
      → s.handle.handle ≡ some port
      → close_port kernel windows s
        ≡ ok (
          tt,
          record s {
            kernel_state = windows.close_handle port s.kernel_state;
            log = closes port ∷ s.log;
          },
        )
  unfolding close_port close_handle call
  close_port_lem {port} s has =
      ap
        (λ (h : Option Handle).
          let r : Outcome (Unit {0} × Iocp K) = elim h [
            | none ↦ ok (tt, s)
            | some p ↦ close_handle windows p s
          ] in
          r)
        has

  -- `give_up` from a state with a port and a listening socket.
  give_up_lem :
      {socket : Socket} {port : Handle} (s : Iocp K)
      → s.handle.handle ≡ some port
      → socket ≢ invalid_socket
      → (k : K) × (give_up kernel windows socket s
          ≡ ok (
            false,
            record s { kernel_state = k; log = ends_network ∷ closes port ∷ closes socket ∷ s.log },
          ))
  unfolding give_up cleanup_network call
  give_up_lem {socket} {port} s has valid =
      let s1 : Iocp K = record s { log = closes socket ∷ s.log } in
      (
        windows.cleanup (windows.close_handle port s.kernel_state),
        rw (close_valid s valid, close_port_lem s1 has) refl,
      )

  -- The port and the listening socket have been made.
  bring_up_lem :
      (config : Config) (s : Iocp K) (socket : Socket) (port : Handle)
      → socket ≢ invalid_socket
      → s.initialized ≡ false
      → s.listen_socket ≡ socket
      → s.handle.handle ≡ some port
      → (b : Bool) × (t : Iocp K) × (bring_up kernel windows config socket s ≡ ok (b, t))
        × (((b ≡ true)
              × IsUp t
              × (t.running ≡ s.running)
              × (t.config ≡ s.config)
              × (t.manager ≡ some (Manager.create config.max_sessions)))
            ⊎ ((b ≡ false)
                × (t.initialized ≡ false)
                × (t.running ≡ s.running)
                × (t.log ≡ ends_network ∷ closes port ∷ closes socket ∷ s.log)))
  unfolding bring_up call
  bring_up_lem config s socket port valid down listens has =
      let (loaded, k, a, did, holds) = load_lem socket s in
      let s1 : Iocp K = record s {
        kernel_state = k;
        handle = record s.handle { accept_ex_loaded = a };
      } in
      let k2 = (kernel.bind k socket config.port).1 in
      let s2 : Iocp K = record s1 { kernel_state = k2 } in
      let (k', gave_up) = give_up_lem s1 has valid in
      let (k'', gave_up') = give_up_lem s2 has valid in
      elim (Bool-cases loaded) [
        | inr failed ↦ (
          false,
          record s1 { kernel_state = k'; log = ends_network ∷ closes port ∷ closes socket ∷ s.log },
          rw (did, failed, gave_up) refl,
          inr (refl, down, refl, refl),
        )
        | inl good ↦ elim (Bool-cases (kernel.bind k socket config.port).0) [
          | inr failed ↦ (
            false,
            record s2 {
              kernel_state = k'';
              log = ends_network ∷ closes port ∷ closes socket ∷ s.log;
            },
            rw (did, good, failed, gave_up') refl,
            inr (refl, down, refl, refl),
          )
          | inl bound ↦ (
            true,
            record s2 { manager = some (Manager.create config.max_sessions); initialized = true },
            rw (did, good, bound) refl,
            inl (
              refl,
              record {
                up = refl;
                port = port;
                has_port = has;
                loaded = ground (arith, holds);
                listener = rw listens valid;
              },
              refl,
              refl,
              refl,
            ),
          )
        ]
      ]

  -- The port has been made.
  listener_lem :
      (config : Config) (s : Iocp K) (port : Handle)
      → GivesSockets kernel
      → s.initialized ≡ false
      → s.handle.handle ≡ some port
      → (b : Bool) × (t : Iocp K) × (open_listener kernel windows config s ≡ ok (b, t))
        × (((b ≡ true)
              × IsUp t
              × (t.running ≡ s.running)
              × (t.config ≡ s.config)
              × (t.manager ≡ some (Manager.create config.max_sessions)))
            ⊎ ((b ≡ false)
                × (t.initialized ≡ false)
                × (t.running ≡ s.running)
                × Balanced (closes port ∷ s.log) t.log
                × Released (ends_network ∷ s.log) t.log))
  unfolding open_listener create_tcp_socket cleanup_network call opens closings startups cleanups
  listener_lem config s port gives down has =
      let (made, k) = kernel.create_socket s.kernel_state in
      let s1 : Iocp K = record s { kernel_state = k; listen_socket = invalid_socket } in
      elim (Option-cases (kernel.create_socket s.kernel_state).0) [
        | inl no_socket ↦ (
          false,
          record s1 {
            kernel_state = windows.cleanup (windows.close_handle port k);
            log = ends_network ∷ closes port ∷ s.log;
          },
          rw (no_socket, close_port_lem s1 has) refl,
          inr (refl, down, refl, λ fd. ground arith, omega arith),
        )
        | inr (socket, got) ↦
            let valid = gives s.kernel_state socket got in
            let real : (socket == invalid_socket) ≡ false = ground arith in
            let s2 : Iocp K = record s {
              kernel_state = k;
              listen_socket = socket;
              log = opened socket ∷ s.log;
            } in
            let (b, t, did, ends) = bring_up_lem config s2 socket port valid down refl has in
            (
              b,
              t,
              rw (got, real, did) refl,
              elim ends [
                | inl (came, up, r, c, m) ↦ inl (came, up, r, c, m)
                | inr (failed, still, r, l) ↦
                    inr (failed, still, r, λ fd. rw l (ground arith), rw l (omega arith))
              ],
            )
      ]

  -- `Initialize` returns and answers whether the model has come up, with no session. When it fails, whatever
  -- it opened it has closed, each start of Winsock has been cleaned up, and the model is up only if it was
  -- before. `WSASocket` is taken not to return `INVALID_SOCKET` when it succeeds.
  pub initialize_balances :
      (config : Config) (s : Iocp K)
      → GivesSockets kernel
      → (b : Bool) × (t : Iocp K) × (initialize kernel windows config s ≡ ok (b, t))
        × Ends config s b t
  unfolding initialize initialize_network create_iocp cleanup_network call opens closings startups
      cleanups
  initialize_balances config s gives = elim (Bool-cases s.initialized) [
    | inl up ↦ (false, s, rw up refl, inr (refl, refl, refl, λ fd. omega arith, omega arith))
    | inr down ↦
        let k1 = (windows.startup s.kernel_state).1 in
        let k2 = (windows.create_port k1).1 in
        elim (Bool-cases (windows.startup s.kernel_state).0) [
          | inr no_network ↦ (
            false,
            record s { initialized = false; config = config; kernel_state = k1 },
            rw (down, no_network) refl,
            inr (refl, sym down, refl, λ fd. omega arith, omega arith),
          )
          | inl started ↦ elim (Option-cases (windows.create_port k1).0) [
            | inl no_port ↦ (
              false,
              record s {
                initialized = false;
                config = config;
                kernel_state = windows.cleanup k2;
                handle = record s.handle { handle = none };
                log = ends_network ∷ starts_network ∷ s.log;
              },
              rw (down, started, no_port) refl,
              inr (refl, sym down, refl, λ fd. ground arith, omega arith),
            )
            | inr (port, made) ↦
                let s1 : Iocp K = record s {
                  initialized = false;
                  config = config;
                  kernel_state = k2;
                  handle = record s.handle { handle = some port };
                  log = opened port ∷ starts_network ∷ s.log;
                } in
                let (b, t, did, ends) = listener_lem config s1 port gives refl refl in
                (
                  b,
                  t,
                  rw (down, started, made, did) refl,
                  elim ends [
                    | inl (came, up, r, c, m) ↦ inl (came, down, up, r, c, m)
                    | inr (failed, still, r, balanced, released) ↦ inr (
                      failed,
                      still ∙ sym down,
                      r,
                      λ fd. ground (arith, balanced fd),
                      omega (arith, released),
                    )
                  ],
                )
          ]
        ]
  ]
