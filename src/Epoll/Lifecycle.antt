-- ===== src/Epoll/Lifecycle.antt =====
-- KanchoNet/Network/EpollModel.cpp: what Initialize leaves.
use kancho_net.Common.{
  ℕ, ◌≡◌, ◌≢◌, refl, sym, ◌∙◌, ◌⊎◌, inl, inr, Bool, true, false, ◌∷◌, none, some, arith, ◌==◌,
  Bool-cases, Option-cases,
}
use kancho_net.Types.{Socket, invalid_socket}
use kancho_net.Config.{Config}
use kancho_net.Manager.{Manager, Entry, Address, deref}
use kancho_net.Manager
use kancho_net.Net.{ok, Kernel, opened, closes}
use kancho_net.Net.Accounts.{opens, closings, Balanced}
use kancho_net.Host.{call}
use kancho_net.Epoll.State.{Epoll, App}
use kancho_net.Epoll.Control.{initialize, open_listener}
use kancho_net.Epoll.Gone.{close_lem}

-- What the methods of a model that is up use.
pub record Equipped {K : Type 0} (s : Epoll K) : Type 0 where
  pub m : Manager
  pub managed_by : s.manager ≡ some m
  pub fd : Socket
  pub epoll : s.handle ≡ some fd
  pub listener : s.listen_socket ≢ invalid_socket

-- A model that is up has all that its methods use; one that runs is up.
pub record IsSound {K : Type 0} (s : Epoll K) : Type 0 where
  pub running_up : (s.running ≡ false) ⊎ (s.initialized ≡ true)
  pub up : (s.initialized ≡ false) ⊎ Equipped s

-- `socket` does not return the invalid handle when it succeeds.
abbrev pub GivesSockets : {K : Type 0} → Kernel K → Type 0
GivesSockets {K} kernel =
    (k : K) (fd : Socket) → (kernel.create_socket k).0 ≡ some fd → fd ≢ invalid_socket

module _ {K : Type 0} (kernel : Kernel K) (app : App K) where
  -- The listening socket has been made.
  bind_lem :
      (config : Config) (epoll : ℕ) (s : Epoll K)
      → GivesSockets kernel
      → s.initialized ≡ false
      → s.running ≡ false
      → s.handle ≡ some epoll
      → (socket : Socket) → (kernel.create_socket s.kernel_state).0 ≡ some socket
      → (b : Bool) × (t : Epoll K) × (open_listener kernel app config epoll s ≡ ok (b, t))
        × IsSound t
        × (((b ≡ true)
              × (t.initialized ≡ true)
              × (t.config ≡ s.config)
              × (t.manager ≡ some (Manager.create config.max_sessions)))
            ⊎ ((b ≡ false) × (t.initialized ≡ false) × Balanced s.log t.log))
  unfolding open_listener call opens closings
  bind_lem config epoll s gives down still has socket got =
      let valid = gives s.kernel_state socket got in
      let real : (socket == invalid_socket) ≡ false = ground arith in
      let (bound, k) = kernel.bind (kernel.create_socket s.kernel_state).1 socket config.port in
      let s1 : Epoll K = record s { listen_socket = socket; kernel_state = k } in
      elim (Bool-cases (kernel.bind (kernel.create_socket s.kernel_state).1 socket config.port).0) [
        | inl good ↦ (
          true,
          record s1 {
            log = opened socket ∷ opened epoll ∷ s.log;
            manager = some (Manager.create config.max_sessions);
            initialized = true;
          },
          rw (got, good) refl,
          record {
            running_up = inr refl;
            up = inr (record {
              m = Manager.create config.max_sessions;
              managed_by = refl;
              fd = epoll;
              epoll = has;
              listener = valid;
            });
          },
          inl (refl, refl, refl, refl),
        )
        | inr bad ↦ (
          false,
          record s1 { log = closes epoll ∷ closes socket ∷ opened socket ∷ opened epoll ∷ s.log },
          rw (got, bad, close_lem kernel app socket, real) refl,
          record { running_up = inl still; up = inl down },
          inr (refl, down, λ fd. ground arith),
        )
      ]

  -- The listening socket is open and bound, or everything is closed again.
  open_listener_lem :
      (config : Config) (epoll : ℕ) (s : Epoll K)
      → GivesSockets kernel
      → s.initialized ≡ false
      → s.running ≡ false
      → s.handle ≡ some epoll
      → (b : Bool) × (t : Epoll K) × (open_listener kernel app config epoll s ≡ ok (b, t))
        × IsSound t
        × (((b ≡ true)
              × (t.initialized ≡ true)
              × (t.config ≡ s.config)
              × (t.manager ≡ some (Manager.create config.max_sessions)))
            ⊎ ((b ≡ false) × (t.initialized ≡ false) × Balanced s.log t.log))
  unfolding open_listener call opens closings
  open_listener_lem config epoll s gives down still has =
      elim (Option-cases (kernel.create_socket s.kernel_state).0) [
        | inl no_socket ↦ (
          false,
          record s {
            listen_socket = invalid_socket;
            kernel_state = (kernel.create_socket s.kernel_state).1;
            log = closes epoll ∷ opened epoll ∷ s.log;
          },
          rw no_socket refl,
          record { running_up = inl still; up = inl down },
          inr (refl, down, λ fd. ground arith),
        )
        | inr (socket, got) ↦ bind_lem config epoll s gives down still has socket got
      ]

  -- `Initialize` of a sound model returns and answers whether the model has come up, freshly and
  -- with no session. When it fails, whatever it opened it has closed, and the model is up only if
  -- it was before. `socket` is taken not to return the invalid handle when it succeeds.
  pub initialize_lem :
      (config : Config) (s : Epoll K)
      → GivesSockets kernel
      → IsSound s
      → (b : Bool) × (t : Epoll K) × (initialize kernel app config s ≡ ok (b, t))
        × IsSound t
        × (((b ≡ true)
              × (s.initialized ≡ false)
              × (t.initialized ≡ true)
              × (t.config ≡ config)
              × (t.manager ≡ some (Manager.create config.max_sessions)))
            ⊎ ((b ≡ false) × (t.initialized ≡ s.initialized) × Balanced s.log t.log))
  unfolding initialize call
  initialize_lem config s gives sound = elim (Bool-cases s.initialized) [
    | inl up ↦ (false, s, rw up refl, sound, inr (refl, refl, λ fd. omega arith))
    | inr down ↦
        let still : s.running ≡ false = ground (arith, sound.running_up) in
        let k = (kernel.epoll_create s.kernel_state).1 in
        elim (Option-cases (kernel.epoll_create s.kernel_state).0) [
          | inl none_made ↦ (
            false,
            record s { config = config; handle = none; kernel_state = k },
            rw (down, none_made) refl,
            record { running_up = inl still; up = inl down },
            inr (refl, refl, λ fd. omega arith),
          )
          | inr (epoll, some_made) ↦
              let s' : Epoll K = record s {
                initialized = false;
                config = config;
                handle = some epoll;
                kernel_state = k;
              } in
              let (b, t, did, sound', ends) =
                open_listener_lem config epoll s' gives refl still refl in
              (
                b,
                t,
                rw (down, some_made, did) refl,
                sound',
                elim ends [
                  | inl (yes_up, up, its_config, fresh) ↦ inl (yes_up, down, up, its_config, fresh)
                  | inr (not_up, same, balanced) ↦ inr (not_up, same ∙ sym down, balanced)
                ],
              )
        ]
  ]
